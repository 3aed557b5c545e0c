-- ===== src/Backup/Sync.antt =====
-- `_xrd_sync_tree` of backup_watcher.py: the files of a tree that EOS lacks, or has at another size, are
-- copied.
use daq_control_vmm_beam.Base.{
  ℕ, ◌≡◌, ◌≢◌, refl, sym, ap, subst, ◌∙◌, ◌⊎◌, inl, inr, Bool, true, false, not, ◌&&◌, some, List,
  [], ◌∷◌, if◌then◌else◌, Text, arith, Bool-cases, &&-split, All,
}
use daq_control_vmm_beam.Base.Dict.{lookup}
use daq_control_vmm_beam.Space.Disk.{FileEntry, SizeMap}
use daq_control_vmm_beam.Backup.Polls.{is_size}

-- `xrdcp` of a local file of a size to a path below the directory, on what EOS holds there.
abbrev pub Xrdcp : Type 0
Xrdcp = Text → ℕ → SizeMap → Bool × SizeMap

abbrev is_regular : FileEntry → Bool
is_regular f = f.is_file && f.readable

abbrev and_ok : Bool → Bool × SizeMap → Bool × SizeMap
and_ok done (ok, remote) = (done && ok, remote)

-- The loop over the files of the tree, with the listing made before it.
unfoldable pub sync_tree : Xrdcp → SizeMap → List FileEntry → SizeMap → Bool × SizeMap
sync_tree xrdcp listed [] remote = (true, remote)
sync_tree xrdcp listed (f ∷ fs) remote =
    let skipped = sync_tree xrdcp listed fs remote in
    let copied = xrdcp f.path f.size remote in
    let rest = sync_tree xrdcp listed fs copied.1 in
    if not (is_regular f)
    then skipped
    else if is_size (lookup f.path listed) f.size
    then skipped
    else and_ok copied.0 rest

-- A copy that reports success leaves the file at its size, and no copy touches another path.
pub record IsFaithful (xrdcp : Xrdcp) : Type 0 where
  pub lands :
      (k : Text) (n : ℕ) (m : SizeMap) → (xrdcp k n m).0 ≡ true → lookup k (xrdcp k n m).1 ≡ some n
  pub keeps :
      (k : Text) (n : ℕ) (m : SizeMap) (j : Text) → j ≢ k → lookup j (xrdcp k n m).1 ≡ lookup j m

-- The listing says of a path only what EOS holds.
abbrev pub IsTrue : SizeMap → SizeMap → Text → Type 0
IsTrue listed remote k = (n : ℕ) → is_size (lookup k listed) n ≡ true → lookup k remote ≡ some n

abbrev pub IsOther : Text → List FileEntry → Type 0
IsOther k fs = All (λ f. k ≢ f.path) fs

-- No path stands twice in the tree.
abbrev pub NodupPaths : List FileEntry → Type 0
NodupPaths [] = Unit
NodupPaths (f ∷ fs) = IsOther f.path fs × NodupPaths fs

abbrev pub IsBackedUp : SizeMap → FileEntry → Type 0
IsBackedUp remote f = f.is_file ≡ true → f.readable ≡ true → lookup f.path remote ≡ some f.size

module _ (xrdcp : Xrdcp) (faithful : IsFaithful xrdcp) (listed : SizeMap) where
  sync_tree-other :
      (k : Text) (fs : List FileEntry) (remote : SizeMap)
      → IsOther k fs
      → lookup k (sync_tree xrdcp listed fs remote).1 ≡ lookup k remote
  unfolding sync_tree
  sync_tree-other k [] remote h = refl
  sync_tree-other k (f ∷ fs) remote (h, t) =
      let c = xrdcp f.path f.size remote in
      ground (
        arith,
        sync_tree-other k fs remote t,
        sync_tree-other k fs c.1 t,
        faithful.keeps f.path f.size remote k h,
      )

  keeps-IsTrue :
      (f : FileEntry) (fs : List FileEntry) (remote : SizeMap)
      → IsOther f.path fs
      → All (λ g. IsTrue listed remote g.path) fs
      → All (λ g. IsTrue listed (xrdcp f.path f.size remote).1 g.path) fs
  keeps-IsTrue f [] remote o h = tt
  keeps-IsTrue f (g ∷ fs) remote (o, os) (h, t) = (
    λ n e. faithful.keeps f.path f.size remote g.path (λ p. o (sym p)) ∙ h n e,
    keeps-IsTrue f fs remote os t,
  )

  sync_tree-skips :
      (f : FileEntry) (fs : List FileEntry) (remote : SizeMap)
      → (is_regular f ≡ false) ⊎ (is_size (lookup f.path listed) f.size ≡ true)
      → sync_tree xrdcp listed (f ∷ fs) remote ≡ sync_tree xrdcp listed fs remote
  unfolding sync_tree
  sync_tree-skips f fs remote h = ground arith

  sync_tree-copies :
      (f : FileEntry) (fs : List FileEntry) (remote : SizeMap)
      → is_regular f ≡ true
      → is_size (lookup f.path listed) f.size ≡ false
      → let c = xrdcp f.path f.size remote in
        sync_tree xrdcp listed (f ∷ fs) remote ≡ and_ok c.0 (sync_tree xrdcp listed fs c.1)
  unfolding sync_tree
  sync_tree-copies f fs remote e s = ground (arith, e, s)

  -- With a faithful `xrdcp`, a listing that says only what EOS holds, and a tree in which no path stands
  -- twice, a sync that reports no failure leaves every regular file that can be read on EOS at its size.
  pub sync_tree-IsBackedUp :
      (fs : List FileEntry) (remote : SizeMap)
      → NodupPaths fs
      → All (λ f. IsTrue listed remote f.path) fs
      → (sync_tree xrdcp listed fs remote).0 ≡ true
      → All (IsBackedUp (sync_tree xrdcp listed fs remote).1) fs
  sync_tree-IsBackedUp [] remote d h ok = tt
  sync_tree-IsBackedUp (f ∷ fs) remote (o, d) (h, t) ok =
      let skips = sync_tree-skips f fs remote in
      elim (Bool-cases (is_regular f)) [
        | inr e ↦
            let eq = skips (inl e) in
            subst (λ r. All (IsBackedUp r.1) (f ∷ fs)) (sym eq)
              (
                λ i r. ground (arith, e, i, r),
                sync_tree-IsBackedUp fs remote d t (ap (λ r. r.0) (sym eq) ∙ ok),
              )
        | inl e ↦ elim (Bool-cases (is_size (lookup f.path listed) f.size)) [
          | inl s ↦
              let eq = skips (inr s) in
              subst (λ r. All (IsBackedUp r.1) (f ∷ fs)) (sym eq)
                (
                  λ i r. sync_tree-other f.path fs remote o ∙ h f.size s,
                  sync_tree-IsBackedUp fs remote d t (ap (λ r. r.0) (sym eq) ∙ ok),
                )
          | inr s ↦
              let c = xrdcp f.path f.size remote in
              let eq = sync_tree-copies f fs remote e s in
              let (good, rest) =
                &&-split c.0 (sync_tree xrdcp listed fs c.1).0 (ap (λ r. r.0) (sym eq) ∙ ok) in
              subst (λ r. All (IsBackedUp r.1) (f ∷ fs)) (sym eq)
                (
                  λ i r. sync_tree-other f.path fs c.1 o ∙ faithful.lands f.path f.size remote good,
                  sync_tree-IsBackedUp fs c.1 d (keeps-IsTrue f fs remote o t) rest,
                )
        ]
      ]
