-- ===== src/Guard/Sorted.antt =====
-- The closed capture files of capture_guard.py: all but the one written last.
use mathlib.Core.List.{Permᴰ}
use mathlib.Core.List.Permᴰ as PermD
use daq_control_vmm_beam.Base.{
  ℕ, ◌≤◌, ◌≡◌, refl, subst, ◌⊎◌, inl, inr, true, false, some, List, [], ◌∷◌, map, keep, arith,
  Bool-cases, All, if-elim, ◌≢◌,
}
use daq_control_vmm_beam.Guard.Captures.{
  CaptureFile, is_pcapng, before_eq, insert_file, sort_files, init, size_of, closed_capture_sizes,
}

-- In the order of the times of writing.
abbrev IsLast : List CaptureFile → CaptureFile → Type 0
IsLast fs f = All (λ g. g.mtime ≤ f.mtime) fs

abbrev IsFirst : CaptureFile → List CaptureFile → Type 0
IsFirst f fs = All (λ g. f.mtime ≤ g.mtime) fs

abbrev IsSorted : List CaptureFile → Type 0
IsSorted [] = Unit
IsSorted (f ∷ fs) = IsFirst f fs × IsSorted fs

before_eq-times : (f g : CaptureFile) → before_eq f g ≡ true → f.mtime ≤ g.mtime
before_eq-times f g h = ground arith

not_before-times : (f g : CaptureFile) → before_eq f g ≡ false → g.mtime ≤ f.mtime
not_before-times f g h = ground arith

IsFirst-trans :
    (f g : CaptureFile) (fs : List CaptureFile) → f.mtime ≤ g.mtime → IsFirst g fs → IsFirst f fs
IsFirst-trans f g [] l h = tt
IsFirst-trans f g (x ∷ fs) l (h, t) = (omega arith, IsFirst-trans f g fs l t)

insert_file-IsFirst :
    (g f : CaptureFile) (fs : List CaptureFile)
    → g.mtime ≤ f.mtime
    → IsFirst g fs
    → IsFirst g (insert_file f fs)
unfolding insert_file
insert_file-IsFirst g f [] l h = (l, tt)
insert_file-IsFirst g f (x ∷ fs) l (h, t) = elim (Bool-cases (before_eq f x)) [
  | inl e ↦ rw e (l, (h, t))
  | inr e ↦ rw e (h, insert_file-IsFirst g f fs l t)
]

insert_file-IsSorted :
    (f : CaptureFile) (fs : List CaptureFile) → IsSorted fs → IsSorted (insert_file f fs)
unfolding insert_file
insert_file-IsSorted f [] h = (tt, tt)
insert_file-IsSorted f (x ∷ fs) (h, t) = elim (Bool-cases (before_eq f x)) [
  | inl e ↦ rw e ((before_eq-times f x e, IsFirst-trans f x fs (before_eq-times f x e) h), (h, t))
  | inr e ↦
      rw e (insert_file-IsFirst x f fs (not_before-times f x e) h, insert_file-IsSorted f fs t)
]

insert_file-Perm : (f : CaptureFile) (fs : List CaptureFile) → Permᴰ (f ∷ fs) (insert_file f fs)
unfolding insert_file
insert_file-Perm f [] = PermD.refl (f ∷ [])
insert_file-Perm f (x ∷ fs) = elim (Bool-cases (before_eq f x)) [
  | inl e ↦ rw e (PermD.refl (f ∷ x ∷ fs))
  | inr e ↦ rw e (Permᴰ.trans (Permᴰ.swap refl refl) (Permᴰ.cons refl (insert_file-Perm f fs)))
]

sort_files-IsSorted : (fs : List CaptureFile) → IsSorted (sort_files fs)
unfolding sort_files
sort_files-IsSorted [] = tt
sort_files-IsSorted (f ∷ fs) = elim (Bool-cases (is_pcapng f)) [
  | inl e ↦ rw e (insert_file-IsSorted f (sort_files fs) (sort_files-IsSorted fs))
  | inr e ↦ rw e (sort_files-IsSorted fs)
]

sort_files-Perm : (fs : List CaptureFile) → Permᴰ (keep is_pcapng fs) (sort_files fs)
unfolding sort_files
sort_files-Perm [] = Permᴰ.nil
sort_files-Perm (f ∷ fs) = elim (Bool-cases (is_pcapng f)) [
  | inl e ↦
      rw (e, keep)
        (Permᴰ.trans (Permᴰ.cons refl (sort_files-Perm fs)) (insert_file-Perm f (sort_files fs)))
  | inr e ↦ rw (e, keep) (sort_files-Perm fs)
]

-- The last element of a sorted list is written no earlier than the others.
init_lem :
    (f : CaptureFile) (fs : List CaptureFile)
    → IsSorted (f ∷ fs)
    → (l : CaptureFile) × Permᴰ (f ∷ fs) (l ∷ init (f ∷ fs))
      × IsLast (init (f ∷ fs)) l
      × (f.mtime ≤ l.mtime)
init_lem f [] h = (f, PermD.refl (f ∷ []), tt, omega arith)
init_lem f (g ∷ fs) ((h, _), t) =
    let (l, p, q, m) = init_lem g fs t in
    (l, Permᴰ.trans (Permᴰ.cons refl p) (Permᴰ.swap refl refl), (omega arith, q), omega arith)

-- The sizes of all capture files but one, which is written no earlier than any of them.
abbrev pub AllButNewest : List CaptureFile → List ℕ → Type 0
AllButNewest fs sizes =
    (l : CaptureFile) × (closed : List CaptureFile) × Permᴰ (keep is_pcapng fs) (l ∷ closed)
    × All (λ g. g.mtime ≤ l.mtime) closed
    × (sizes ≡ map size_of closed)

insert_file-nonempty : (f : CaptureFile) (fs : List CaptureFile) → insert_file f fs ≢ []
unfolding insert_file
insert_file-nonempty f [] e = cc e
insert_file-nonempty f (x ∷ fs) e =
    if-elim (λ (l : List CaptureFile). l ≢ []) (before_eq f x) (f ∷ x ∷ fs) (x ∷ insert_file f fs)
      (λ _ e'. cc e') (λ _ e'. cc e') e

sort_files-empty : (fs : List CaptureFile) → sort_files fs ≡ [] → keep is_pcapng fs ≡ []
unfolding sort_files
sort_files-empty [] e = refl
sort_files-empty (f ∷ fs) e = elim (Bool-cases (is_pcapng f)) [
  | inl p ↦ absurd (insert_file-nonempty f (sort_files fs) (rw p at e))
  | inr p ↦ rw (p, keep) (sort_files-empty fs (rw p at e))
]

-- The sizes that the guard judges are those of all capture files of the directory but one, and that one
-- is written no earlier than any of them; without a capture file there is no size to judge.
pub closed_capture_sizes-AllButNewest :
    (fs : List CaptureFile)
    → AllButNewest fs (closed_capture_sizes (some fs))
      ⊎ ((keep is_pcapng fs ≡ []) × (closed_capture_sizes (some fs) ≡ []))
unfolding closed_capture_sizes
closed_capture_sizes-AllButNewest fs =
    elim (sort_files fs)
        as (λ x.
          sort_files fs ≡ x
          → AllButNewest fs (map size_of (init x))
            ⊎ ((keep is_pcapng fs ≡ []) × (map size_of (init x) ≡ []))) [
              | [] ↦ λ e. inr (sort_files-empty fs e, refl)
              | g ∷ gs ↦ λ e.
                  let (l, p, q, m) = init_lem g gs (subst IsSorted e (sort_files-IsSorted fs)) in
                  inl (
                    l,
                    init (g ∷ gs),
                    Permᴰ.trans (subst (Permᴰ (keep is_pcapng fs)) e (sort_files-Perm fs)) p,
                    q,
                    refl,
                  )
            ]
      refl
