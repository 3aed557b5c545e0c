-- ===== src/Space/Restored.antt =====
-- What a restore of flask_app/space_manager.py brings back.
use mathlib.Core.Option.{some-injective}
use daq_control_vmm_beam.Base.{
  ℕ, ◌<◌, ◌≡◌, ◌∙◌, refl, ◌⊎◌, true, false, Option, none, some, List, [], ◌∷◌, arith, Text, text_eq,
  text_eq_iff, text_eq→eq, length, inl, inr, Option-cases, Bool-cases, subst,
}
use daq_control_vmm_beam.Base.Dict.{lookup, NodupKeys, put, put-NodupKeys}
use daq_control_vmm_beam.Space.Disk.{SizeMap, total_size, is_run_name}
use daq_control_vmm_beam.Space.Listing.{
  Listing, printed, failed, not_started, listed_file, listed_sizes, is_absent, remote_size_map,
}
use daq_control_vmm_beam.Space.Restore.{
  Copier, Target, already_complete, to_fetch, Fetched, fetch_one, fetch_all, nothing_fetched,
  report_fetch, restore_listed, restore_run, is_success,
}

-- What the program relies on in `xrdcp -f`: a download that succeeds leaves the file at the size that
-- EOS lists, and no download touches another file.
pub record IsFaithful (copy : Copier) : Type 0 where
  pub arrives :
      (rel : Text) (size : ℕ) (files : SizeMap)
      → (copy rel size files).0 ≡ true
      → lookup rel (copy rel size files).1 ≡ some size
  pub spares :
      (rel other : Text) (size : ℕ) (files : SizeMap)
      → text_eq rel other ≡ false
      → lookup other (copy rel size files).1 ≡ lookup other files

listed_sizes-NodupKeys :
    (base : Text) (sizes : SizeMap) (lines : List Text)
    → NodupKeys sizes
    → NodupKeys (listed_sizes base sizes lines)
unfolding listed_sizes
listed_sizes-NodupKeys base sizes [] u = u
listed_sizes-NodupKeys base sizes (line ∷ lines) u = elim (Option-cases (listed_file base line)) [
  | inl e ↦ rw e (listed_sizes-NodupKeys base sizes lines u)
  | inr ((rel, size), e) ↦
      rw e (listed_sizes-NodupKeys base (put rel size sizes) lines (put-NodupKeys rel size sizes u))
]

remote_size_map-NodupKeys :
    (eos_dir : Text) (listing : Listing) (remote : SizeMap)
    → remote_size_map eos_dir listing ≡ some remote
    → NodupKeys remote
unfolding remote_size_map
remote_size_map-NodupKeys eos_dir not_started remote h = cc
remote_size_map-NodupKeys eos_dir (failed message) remote h =
    elim (Bool-cases (is_absent message)) [
      | inl e ↦ subst NodupKeys (some-injective _ _ (rw (e, remote_size_map) at h)) tt
      | inr e ↦ cc (rw (e, remote_size_map) at h)
    ]
remote_size_map-NodupKeys eos_dir (printed lines) remote h =
    subst NodupKeys (some-injective _ _ h) (listed_sizes-NodupKeys _ [] lines tt)

module _ (copy : Copier) (f : IsFaithful copy) where
  fetch_one-failures :
      (rel : Text) (size : ℕ) (s : Fetched)
      → (fetch_one copy rel size s).failures ≡ 0
      → (s.failures ≡ 0) × (lookup rel (fetch_one copy rel size s).files ≡ some size)
  unfolding fetch_one
  fetch_one-failures rel size s h = ground (arith, f.arrives rel size s.files)

  fetch_one-spares :
      (rel other : Text) (size : ℕ) (s : Fetched)
      → text_eq rel other ≡ false
      → lookup other (fetch_one copy rel size s).files ≡ lookup other s.files
  unfolding fetch_one
  fetch_one-spares rel other size s h = ground (arith, f.spares rel other size s.files)

  fetch_all-failures :
      (m : SizeMap) (s : Fetched) → (fetch_all copy m s).failures ≡ 0 → s.failures ≡ 0
  unfolding fetch_all
  fetch_all-failures [] s h = h
  fetch_all-failures ((rel, size) ∷ m) s h =
      (fetch_one-failures rel size s (fetch_all-failures m (fetch_one copy rel size s) h)).0

  -- A file that is not asked for stays as it is.
  fetch_all-spares :
      (path : Text) (m : SizeMap) (s : Fetched)
      → lookup path m ≡ none
      → lookup path (fetch_all copy m s).files ≡ lookup path s.files
  unfolding fetch_all lookup
  fetch_all-spares path [] s h = refl
  fetch_all-spares path ((rel, size) ∷ m) s h = elim (Bool-cases (text_eq rel path)) [
    | inl e ↦ cc (rw e at h)
    | inr e ↦
        fetch_all-spares path m (fetch_one copy rel size s) (rw e at h)
        ∙ fetch_one-spares rel path size s e
  ]

  -- With no failure every file that is asked for is there at its size.
  fetch_all-brings :
      (path : Text) (sz : ℕ) (m : SizeMap) (s : Fetched)
      → NodupKeys m
      → (fetch_all copy m s).failures ≡ 0
      → lookup path m ≡ some sz
      → lookup path (fetch_all copy m s).files ≡ some sz
  unfolding fetch_all lookup
  fetch_all-brings path sz [] s u z h = cc
  fetch_all-brings path sz ((rel, size) ∷ m) s (fresh, u) z h =
      elim (Bool-cases (text_eq rel path)) [
        | inl e ↦
            let same : rel ≡ path = text_eq→eq rel path e in
            let next = fetch_one copy rel size s in
            let (_, here) = fetch_one-failures rel size s (fetch_all-failures m next z) in
            ground (arith, fetch_all-spares path m next, here)
        | inr e ↦ fetch_all-brings path sz m (fetch_one copy rel size s) u z (rw e at h)
      ]

to_fetch-matching :
    (files : SizeMap) (path : Text) (m : SizeMap)
    → lookup path m ≡ none
    → lookup path (to_fetch files m) ≡ none
unfolding to_fetch lookup
to_fetch-matching files path [] h = refl
to_fetch-matching files path ((rel, size) ∷ m) h = ground (arith, to_fetch-matching files path m)

to_fetch-NodupKeys : (files m : SizeMap) → NodupKeys m → NodupKeys (to_fetch files m)
unfolding to_fetch
to_fetch-NodupKeys files [] u = u
to_fetch-NodupKeys files ((rel, size) ∷ m) (fresh, u) =
    ground (arith, to_fetch-NodupKeys files m u, to_fetch-matching files rel m)

-- A file of the listing is at hand at its size and is not asked for, or it is asked for.
to_fetch-cases :
    (files : SizeMap) (path : Text) (sz : ℕ) (m : SizeMap)
    → NodupKeys m
    → lookup path m ≡ some sz
    → ((lookup path files ≡ some sz) × (lookup path (to_fetch files m) ≡ none))
      ⊎ (lookup path (to_fetch files m) ≡ some sz)
unfolding to_fetch lookup
to_fetch-cases files path sz [] u h = cc
to_fetch-cases files path sz ((rel, size) ∷ m) (fresh, u) h =
    ground (
      arith,
      text_eq_iff rel path,
      to_fetch-matching files path m,
      to_fetch-cases files path sz m u,
    )

total_size-zero :
    (m : SizeMap) (path : Text) (sz : ℕ) → total_size m ≡ 0 → lookup path m ≡ some sz → sz ≡ 0
unfolding total_size lookup
total_size-zero [] path sz z h = cc
total_size-zero ((rel, size) ∷ m) path sz z h = ground (arith, total_size-zero m path sz)

module _ (copy : Copier) (f : IsFaithful copy) where
  report_fetch-success :
      (s : Fetched)
      → is_success (report_fetch s).0 ≡ true
      → (s.failures ≡ 0) × ((report_fetch s).1 ≡ s.files)
  unfolding report_fetch
  report_fetch-success s h = ground arith

  restore_listed_complete :
      (free : Option ℕ) (remote files : SizeMap) (path : Text) (sz : ℕ)
      → NodupKeys remote
      → is_success (restore_listed copy free remote files).0 ≡ true
      → lookup path remote ≡ some sz
      → 0 < sz
      → lookup path (restore_listed copy free remote files).1 ≡ some sz
  unfolding restore_listed
  restore_listed_complete free remote files path sz u ok h big =
      let wanted = to_fetch files remote in
      let got = fetch_all copy wanted (nothing_fetched files) in
      ground (
        arith,
        to_fetch-cases files path sz remote u h,
        total_size-zero wanted path sz,
        report_fetch-success got,
        fetch_all-spares copy f path wanted (nothing_fetched files),
        fetch_all-brings copy f path sz wanted (nothing_fetched files)
            (to_fetch-NodupKeys files remote u),
      )

  -- With a faithful `xrdcp`, a restore that reports success from a listing leaves every listed file
  -- that is not empty on the local disk at its listed size.
  pub restore_run_complete :
      (t : Target) (run eos_dir : Text) (listing : Listing) (remote : SizeMap) (path : Text)
      (sz : ℕ)
      → t.remote ≡ some remote
      → remote_size_map eos_dir listing ≡ some remote
      → is_success (restore_run copy t run).0 ≡ true
      → lookup path remote ≡ some sz
      → 0 < sz
      → lookup path (restore_run copy t run).1 ≡ some sz
  unfolding restore_run
  restore_run_complete t run eos_dir listing remote path sz e l ok h big = ground (
    arith,
    restore_listed_complete t.free remote t.files path sz
        (remote_size_map-NodupKeys eos_dir listing remote l),
  )

-- A restore whose missing files are all empty reports success, fetches none of them, and leaves the
-- local files as they are.
pub restore_run-empty_files :
    (copy : Copier) (t : Target) (run : Text) (remote : SizeMap)
    → is_run_name run ≡ true
    → text_eq run t.active ≡ false
    → t.remote ≡ some remote
    → 0 < length (to_fetch t.files remote)
    → total_size (to_fetch t.files remote) ≡ 0
    → restore_run copy t run ≡ (already_complete, t.files)
unfolding restore_run
restore_run-empty_files copy t run [] n a e some_missing z = absurd (omega arith)
restore_run-empty_files copy t run (x ∷ remote) n a e some_missing z = rw (n, a, e, z)
