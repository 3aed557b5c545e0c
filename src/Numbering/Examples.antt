-- ===== src/Numbering/Examples.antt =====
-- Names of runs, and the theorems about iterate_run_num.py at concrete data.
use daq_control_vmm_beam.Base.{
  ◌≤◌, ◌≡◌, refl, true, false, some, [], ◌∷◌, codes, text_eq, to_nat?, digits_from, arith,
}
use daq_control_vmm_beam.Numbering.Names.{
  digits, numbered, split_number_from, split_number, RunSite, set_highwater, free_number,
  resumes_run, renames, is_incomplete, is_unused, resume_or_search, iterate_run, keeps_name,
}
use daq_control_vmm_beam.Numbering.Fresh.{IsFresh, iterate_run-IsFresh, iterate_run-reuses}

name_of_run : numbered (codes "run") 107 ≡ codes "run_107"
unfolding numbered digits
name_of_run = refl

parts_of_name : split_number (codes "tb_6-7_012") ≡ some (codes "tb_6-7", 12)
unfolding split_number split_number_from text_eq to_nat? digits_from
parts_of_name = refl

abbrev site : RunSite
site = record {
  run_name = codes "run_7";
  resume = false;
  sub_runs = codes "scan" ∷ [];
  completed = [];
  run_dirs = [];
  highwater = 7;
}

-- run_8 is on the disk, above the mark.
abbrev busy_site : RunSite
busy_site = record site { run_dirs = codes "run_7" ∷ codes "run_8" ∷ [] }

taken_numbers_are_passed :
    iterate_run 12 busy_site
    ≡ (renames (codes "run") 9, record busy_site { run_name = codes "run_9"; highwater = 9 })
unfolding iterate_run is_unused resume_or_search is_incomplete free_number set_highwater numbered
    digits split_number split_number_from text_eq to_nat? digits_from
taken_numbers_are_passed = refl

-- No directory at all: every name is free.
iterate_run-IsFresh_example : IsFresh site (iterate_run 9 site)
iterate_run-IsFresh_example =
    iterate_run-IsFresh site 0 8 (λ base n l. refl) (omega arith) (omega arith)

abbrev pruned : RunSite
pruned = record site { resume = true; highwater = 6 }

pruned-is_unused : is_unused pruned ≡ true
unfolding is_unused split_number split_number_from text_eq to_nat? digits_from
pruned-is_unused = refl

pruned-is_incomplete : is_incomplete pruned ≡ true
unfolding is_incomplete
pruned-is_incomplete = refl

pruned_name : split_number pruned.run_name ≡ some (codes "run", 7)
unfolding split_number split_number_from text_eq to_nat? digits_from
pruned_name = refl

iterate_run-reuses_example :
    let first = iterate_run 5 pruned in
    (first.0 ≡ keeps_name)
    × (7 ≤ first.1.highwater)
    × (iterate_run 5 first.1 ≡ (resumes_run, first.1))
iterate_run-reuses_example =
    iterate_run-reuses pruned 5 (codes "run") 7 refl pruned-is_incomplete pruned_name
      pruned-is_unused
