-- ===== src/Examples/Headers.antt =====
-- One header is added to an empty table and deleted again.
use postmarketos_x00td_cellu.Common.{
  ℕ, ◌≤◌, ◌≡◌, ◌≢◌, refl, sym, subst, ◌∙◌, true, false, none, some, [], ◌∷◌, update, arith,
}
use postmarketos_x00td_cellu.Common.Fault.{write}
use postmarketos_x00td_cellu.Common.Int.{pos}
use postmarketos_x00td_cellu.Hdr.Slots.{Offset, Slots, reserved, reserve, release}
use postmarketos_x00td_cellu.Hdr.Apart.{no_slots, no_slots-IsSlots}
use postmarketos_x00td_cellu.Hdr.Reserve.{Reserves, Gained, Freed, reserve-Reserves, release-Freed}
use postmarketos_x00td_cellu.Hdr.Tables.{HdrAdd, HdrEntry, hdr_entry, Tables, Platform, hdr_bin_sz}
use postmarketos_x00td_cellu.Hdr.Headers.{HdrAnswers, new_entry, add_hdr, del_hdr}
use postmarketos_x00td_cellu.Hdr.Live.{Live, IsTables, LieApart, LiesInside, hdr_bin_sz-positive}
use postmarketos_x00td_cellu.Hdr.Added.{Adds, add_hdr-Adds}
use postmarketos_x00td_cellu.Hdr.Dropped.{Deletes}
use postmarketos_x00td_cellu.Hdr.Deleted.{del_hdr-Deletes}
use postmarketos_x00td_cellu.Hdr.Hardware.{generate_hdr_hw_tbl}
use postmarketos_x00td_cellu.Hdr.Written.{Generates}
use postmarketos_x00td_cellu.Hdr.Runs.{
  run-Generates, add, del, no_tables, no_tables-IsTables, run, run-LieApart,
}

abbrev platform : Platform
platform = record { hdr_mem_size = 100; ctx_mem_size = 100; is_v2_5 = false }

abbrev answers : HdrAnswers
answers = record {
  own = record { object_ok = true; offset_ok = true; id = some 5 };
  mapped = none;
  ctx = record { object_ok = true; offset_ok = true; id = none };
}

-- Nine bytes go to the second bin.
abbrev request : HdrAdd
request = record {
  name = 104 ∷ 49 ∷ [];
  hdr = 1 ∷ 2 ∷ 3 ∷ 4 ∷ 5 ∷ 6 ∷ 7 ∷ 8 ∷ 9 ∷ [];
  hdr_len = 9;
  l2_type = 1;
  is_partial = 0;
  is_eth2_ofst_valid = 0;
  eth2_ofst = 0;
}

abbrev slot : Offset
slot = record { offset = 0; bin = 1; ipacm_installed = true }

abbrev one_slot : Slots
one_slot = record { used = update (λ b. []) 1 (slot ∷ []); free = λ b. []; end_ofst = 16 }

reserves : reserve hdr_bin_sz 1 100 true true no_slots ≡ reserved slot one_slot
unfolding reserve hdr_bin_sz
reserves = refl

reserve-Reserves_example :
    Reserves hdr_bin_sz 1 100 true no_slots (reserve hdr_bin_sz 1 100 true true no_slots)
reserve-Reserves_example =
    reserve-Reserves hdr_bin_sz hdr_bin_sz-positive [] no_slots (no_slots-IsSlots hdr_bin_sz) 1 100
      (omega arith) (unfold hdr_bin_sz in omega arith) true true

first : Gained hdr_bin_sz 1 100 no_slots slot one_slot
first = subst (Reserves hdr_bin_sz 1 100 true no_slots) reserves reserve-Reserves_example

release-Freed_example :
    (t' : Slots) × (release 0 1 one_slot ≡ some t') × Freed hdr_bin_sz first.bins 1 0 one_slot t'
release-Freed_example =
    release-Freed hdr_bin_sz hdr_bin_sz-positive first.bins one_slot first.valid 1 0
      (ground (arith, first.in_use 1 0))

abbrev entry : HdrEntry
unfolding new_entry
entry = record (new_entry request true none (some (0, 1))) { id = 5; ref_cnt = 1 }

abbrev one_header : Tables
one_header = record no_tables {
  object =
      update (update (λ n. none) 0 (some (hdr_entry (record entry { id = 0; ref_cnt = 0 })))) 0
        (some (hdr_entry entry));
  fresh = 1;
  ids = update (λ hdl. none) 5 (some 0);
  hdr_list = 0 ∷ [];
  hdr_slots = one_slot;
  hdr_cnt = 1;
}

adds : add_hdr platform answers request true no_tables ≡ some (pos 0, some 5, one_header)
unfolding add_hdr entry
adds = refl

add_hdr-Adds_example :
    Adds platform answers request no_tables (add_hdr platform answers request true no_tables)
add_hdr-Adds_example =
    add_hdr-Adds platform answers request no_tables (no_tables-IsTables 100) true (omega arith) refl

one_header-IsTables : IsTables 100 one_header
one_header-IsTables =
    let d = add_hdr-Adds_example in
    let same : d.after ≡ one_header = (let q = sym d.returns ∙ adds in cc) in
    subst (IsTables 100) same d.valid

del_hdr-Deletes_example : Deletes 100 one_header 5 0 true entry (del_hdr 5 true one_header)
del_hdr-Deletes_example =
    del_hdr-Deletes 100 one_header one_header-IsTables 5 0 entry refl refl true

run-LieApart_example :
    (s : Tables) × (run platform
        (add answers request true ∷ del 5 true ∷ add answers request false ∷ [])
        no_tables
      ≡ some s)
    × (s.hdr_slots.end_ofst ≤ 100)
    × ((n : ℕ) (e : HdrEntry) → Live s n e → LiesInside s.hdr_slots.end_ofst e)
    × ((n m : ℕ) (e f : HdrEntry)
        → n ≢ m
        → Live s n e
        → Live s m f
        → LieApart s.hdr_slots.end_ofst e f)
run-LieApart_example =
    run-LieApart platform (omega arith) refl
      (add answers request true ∷ del 5 true ∷ add answers request false ∷ [])

run-Generates_example :
    (s : Tables) × (run platform (add answers request true ∷ []) no_tables ≡ some s)
    × Generates s true (generate_hdr_hw_tbl true s)
run-Generates_example =
    run-Generates platform (omega arith) refl (add answers request true ∷ []) true

-- The nine bytes, and the rest of the slot.
generates_nine :
    generate_hdr_hw_tbl true one_header
    ≡ some (pos 0, 1 ∷ 2 ∷ 3 ∷ 4 ∷ 5 ∷ 6 ∷ 7 ∷ 8 ∷ 9 ∷ 0 ∷ 0 ∷ 0 ∷ 0 ∷ 0 ∷ 0 ∷ 0 ∷ [])
unfolding generate_hdr_hw_tbl entry write
generates_nine = refl
