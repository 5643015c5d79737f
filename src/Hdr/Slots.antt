-- ===== src/Hdr/Slots.antt =====
-- ipa_hdr.c: the slots of a table of headers or of processing contexts. A slot has the size of its bin for
-- ever; the slots of a bin are on its list of slots in use or on its list of free ones. `size` gives the
-- sizes of the bins. A slot is named by its offset.
use postmarketos_x00td_cellu.Common.{
  ℕ, ◌+◌, ◌%◌, Bool, not, Option, none, some, List, [], ◌∷◌, update, ltb, ◌==◌, if◌then◌else◌,
}

pub record Offset : Type 0 where
  pub offset : ℕ
  pub bin : ℕ
  pub ipacm_installed : Bool

pub record Slots : Type 0 where
  pub used : ℕ → List Offset
  pub free : ℕ → List Offset
  pub end_ofst : ℕ

pub data Reserved : Type 0 where
  no_room no_memory : Reserved
  reserved : Offset → Slots → Reserved

-- A slot goes to the front of the list of slots in use.
unfoldable pub hand_out : ℕ → Offset → Slots → Slots
hand_out bin o t = record t { used = update t.used bin (o ∷ t.used bin) }

-- There is no free slot: the table grows by one, if it has room and the object can be allocated.
unfoldable pub grow : (ℕ → ℕ) → ℕ → ℕ → Bool → Bool → Slots → Reserved
unfolding hand_out
grow size bin mem_size user alloc_ok t =
    let next = (t.end_ofst + size bin) % 4294967296 in
    let o : Offset = record { offset = t.end_ofst; bin = bin; ipacm_installed = user } in
    if ltb mem_size next
    then no_room
    else if not alloc_ok
    then no_memory
    else reserved o (hand_out bin o (record t { end_ofst = next }))

-- The first free slot, or a new one.
unfoldable pub reserve_from : List Offset → (ℕ → ℕ) → ℕ → ℕ → Bool → Bool → Slots → Reserved
unfolding grow hand_out
reserve_from [] size bin mem_size user alloc_ok t = grow size bin mem_size user alloc_ok t
reserve_from (o ∷ os) size bin mem_size user alloc_ok t =
    let o' : Offset = record o { ipacm_installed = user } in
    reserved o' (hand_out bin o' (record t { free = update t.free bin os }))

unfoldable pub reserve : (ℕ → ℕ) → ℕ → ℕ → Bool → Bool → Slots → Reserved
unfolding reserve_from
reserve size bin mem_size user alloc_ok t =
    reserve_from (t.free bin) size bin mem_size user alloc_ok t

unfoldable pub find_offset : ℕ → List Offset → Option Offset
find_offset x [] = none
find_offset x (o ∷ os) = if o.offset == x then some o else find_offset x os

unfoldable pub unlink : ℕ → List Offset → List Offset
unlink x [] = []
unlink x (o ∷ os) = if o.offset == x then os else o ∷ unlink x os

-- list_move to the list of free slots, from either list; a slot on neither is a fault.
unfoldable pub release : ℕ → ℕ → Slots → Option Slots
unfolding find_offset unlink
release x bin t = elim (find_offset x (t.used bin)) [
  | some o ↦ some (record t {
    used = update t.used bin (unlink x (t.used bin));
    free = update t.free bin (o ∷ t.free bin);
  })
  | none ↦ elim (find_offset x (t.free bin)) [
    | some o ↦ some (record t { free = update t.free bin (o ∷ unlink x (t.free bin)) })
    | none ↦ none
  ]
]
