-- ===== src/Qmi/Append.antt =====
-- vendor-init/qmi.c: what the appenders write.
use postmarketos_x00td_cellu.Common.{
  ℕ, zero, suc, ◌+◌, ◌-◌, ◌/◌, ◌%◌, ◌≤◌, ◌<◌, ◌≡◌, refl, ap, inl, inr, Bool-cases, Option-cases,
  none, some, List, [], ◌∷◌, ◌++◌, append_assoc, length, length-append, take, take-all, set,
  length-set, ltb, lt→ltb, ==-ne, ◌==◌, arith, if◌then◌else◌, sym, ◌∙◌,
}
use postmarketos_x00td_cellu.Common.Fault.{write, write_bytes}
use postmarketos_x00td_cellu.Qmi.{qmi_hdr_req, qmi_tlv_bytes}
use postmarketos_x00td_cellu.Qmi.Wire.{tlv, header}

set-append_at : (xs ys : List ℕ) (i x v : ℕ) → i ≡ length xs → set (xs ++ x ∷ ys) i v ≡ xs ++ v ∷ ys
set-append_at [] ys zero x v e = refl
set-append_at [] ys (suc i) x v e = absurd (omega arith)
set-append_at (u ∷ xs) ys zero x v e = absurd (omega arith)
set-append_at (u ∷ xs) ys (suc i) x v e = ap (λ l. u ∷ l) (set-append_at xs ys i x v (omega arith))

write-append_at :
    (xs ys : List ℕ) (i x v : ℕ) → i ≡ length xs → write (xs ++ x ∷ ys) i v ≡ some (xs ++ v ∷ ys)
unfolding write
write-append_at xs ys i x v e =
    rw (lt→ltb i (length (xs ++ x ∷ ys)) (omega (arith, length-append xs (x ∷ ys))))
      (ap some (set-append_at xs ys i x v e))

pub write_bytes-append_at :
    (new : List ℕ) (pre old post : List ℕ) (i : ℕ)
    → i ≡ length pre
    → length old ≡ length new
    → write_bytes (pre ++ (old ++ post)) i new ≡ some (pre ++ (new ++ post))
unfolding write_bytes
write_bytes-append_at [] pre [] post i e h = refl
write_bytes-append_at [] pre (o ∷ old) post i e h = absurd (omega arith)
write_bytes-append_at (v ∷ new) pre [] post i e h = absurd (omega arith)
write_bytes-append_at (v ∷ new) pre (o ∷ old) post i e h =
    rw (write-append_at pre (old ++ post) i o v e) (
      simp append_assoc at (
        write_bytes-append_at new (pre ++ v ∷ []) old post (i + 1)
          (omega (arith, length-append pre (v ∷ []))) (omega arith)))

-- An array of which `msg` is written, `off` is the offset behind it and `room` bytes are left.
pub record Built (b : List ℕ) (off : ℕ) (msg : List ℕ) (room : ℕ) : Type 0 where
  pub rest : List ℕ
  pub split : b ≡ msg ++ rest
  pub offset : off ≡ length msg
  pub left : length rest ≡ room

split_at :
    (n : ℕ) (xs : List ℕ)
    → n ≤ length xs
    → (front back : List ℕ) × (xs ≡ front ++ back) × (length front ≡ n)
split_at zero xs h = ([], xs, refl, refl)
split_at (suc n) [] h = elim h [ ]
split_at (suc n) (x ∷ xs) h =
    let (front, back, e, l) = split_at n xs (omega arith) in
    (x ∷ front, back, ap (λ r. x ∷ r) e, omega arith)

-- The guard on an empty value changes nothing.
store_guarded :
    (b v : List ℕ) (i : ℕ)
    → (if length v == 0 then some b else write_bytes b i (take (length v) v)) ≡ write_bytes b i v
unfolding write_bytes
store_guarded b [] i = refl
store_guarded b (x ∷ v) i =
    rw (==-ne (suc (length v)) 0 (omega arith))
      (ap (write_bytes b i) (take-all (suc (length v)) (x ∷ v) (omega arith)))

tlv_bytes-append_at :
    (msg h old post v : List ℕ) (type : ℕ)
    → length v < 65536
    → length h ≡ 3
    → length old ≡ length v
    → qmi_tlv_bytes (msg ++ (h ++ (old ++ post))) (length msg) type v (length v)
      ≡ some (msg ++ (tlv type v ++ post), length msg + 3 + length v)
unfolding qmi_tlv_bytes
tlv_bytes-append_at msg h old post v type fits three same =
    let e : length v % 65536 ≡ length v = omega arith in
    let head : List ℕ = type ∷ (length v % 256) ∷ (length v / 256 % 256) ∷ [] in
    rw (
      e,
      write_bytes-append_at head msg h (old ++ post) (length msg) refl three,
      store_guarded (msg ++ (head ++ (old ++ post))) v (length msg + 3),
      ← append_assoc msg head (old ++ post),
      write_bytes-append_at v (msg ++ head) old post (length msg + 3)
          (omega (arith, length-append msg head)) same,
      append_assoc msg head (v ++ post),
    )

-- The same, with the array and the numbers as they stand at a call.
tlv_bytes-split :
    (b msg h old post v : List ℕ) (off type n : ℕ)
    → b ≡ msg ++ (h ++ (old ++ post))
    → off ≡ length msg
    → n ≡ length v
    → n < 65536
    → length h ≡ 3
    → length old ≡ n
    → qmi_tlv_bytes b off type v n ≡ some (msg ++ (tlv type v ++ post), length msg + 3 + length v)
tlv_bytes-split b msg h old post v off type n eb eo en fits three same =
    rw (eb, eo, en) (tlv_bytes-append_at msg h old post v type (omega arith) three (same ∙ en))

-- An element is written directly behind the message if the array has room for it.
pub tlv_bytes-Built :
    {b : List ℕ} {off : ℕ} {msg : List ℕ} {room : ℕ} (type : ℕ) (v : List ℕ) (n : ℕ)
    → Built b off msg room
    → n ≡ length v
    → n < 65536
    → 3 + n ≤ room
    → (b' : List ℕ) × (off' : ℕ) × (qmi_tlv_bytes b off type v n ≡ some (b', off'))
      × Built b' off' (msg ++ tlv type v) (room - (3 + n))
tlv_bytes-Built {b} {off} {msg} {room} type v n built en fits space =
    let (h, more, e1, three) = split_at 3 built.rest (omega (arith, built.left)) in
    let lr : length built.rest ≡ length h + length more = ap length e1 ∙ length-append h more in
    let (old, post, e2, same) = split_at n more (omega (arith, built.left)) in
    let lm : length more ≡ length old + length post = ap length e2 ∙ length-append old post in
    (
      msg ++ (tlv type v ++ post),
      length msg + 3 + length v,
      tlv_bytes-split b msg h old post v off type n
          (built.split ∙ ap (λ r. msg ++ r) (e1 ∙ ap (λ r. h ++ r) e2)) built.offset en fits three
          same,
      record {
        rest = post;
        split = sym (append_assoc msg (tlv type v) post);
        offset = omega (arith, length-append msg (tlv type v));
        left = omega (arith, built.left);
      },
    )

write_bytes-split :
    (b old post new : List ℕ)
    → b ≡ old ++ post
    → length old ≡ length new
    → write_bytes b 0 new ≡ some (new ++ post)
write_bytes-split b old post new e h = rw e (write_bytes-append_at new [] old post 0 refl h)

-- The header fills the first seven bytes.
pub hdr_req-Built :
    (b : List ℕ) (txid msg_id body_len : ℕ)
    → 7 ≤ length b
    → (b' : List ℕ) × (qmi_hdr_req b txid msg_id body_len ≡ some (b', 7))
      × Built b' 7 (header 0 txid msg_id body_len) (length b - 7)
unfolding qmi_hdr_req
hdr_req-Built b txid msg_id body_len h =
    let (old, post, e, seven) = split_at 7 b h in
    let l : length b ≡ length old + length post = ap length e ∙ length-append old post in
    (
      header 0 txid msg_id body_len ++ post,
      rw (write_bytes-split b old post (header 0 txid msg_id body_len) e seven),
      record { rest = post; split = refl; offset = refl; left = omega arith },
    )

length-write_bytes :
    (new b : List ℕ) (i : ℕ) {b' : List ℕ} → write_bytes b i new ≡ some b' → length b' ≡ length b
unfolding write_bytes write
length-write_bytes [] b i e = ground arith
length-write_bytes (v ∷ new) b i e = elim (Bool-cases (ltb i (length b))) [
  | inl inside ↦ length-write_bytes new (set b i v) (i + 1) (rw inside at e) ∙ length-set b i v
  | inr outside ↦ absurd (ground (arith, e))
]

-- A store that does not fit the array is a fault.
pub write_bytes-overflow :
    (new b : List ℕ) (i : ℕ)
    → length b < i + length new
    → 0 < length new
    → write_bytes b i new ≡ none
unfolding write_bytes write
write_bytes-overflow [] b i h nonempty = elim nonempty [ ]
write_bytes-overflow (v ∷ new) b i h nonempty = elim (Bool-cases (ltb i (length b))) [
  | inl inside ↦ rw inside (
      write_bytes-overflow new (set b i v) (i + 1) (ground (arith, length-set b i v))
        (ground arith))
  | inr outside ↦ rw outside
]

-- An element for which the array has no room is a fault.
pub tlv_bytes-overflow :
    (b : List ℕ) (off : ℕ) (msg : List ℕ) (room type : ℕ) (v : List ℕ) (n : ℕ)
    → Built b off msg room
    → n ≡ length v
    → n < 65536
    → room < 3 + n
    → qmi_tlv_bytes b off type v n ≡ none
unfolding qmi_tlv_bytes
tlv_bytes-overflow b off msg room type v n built en fits small =
    let head : List ℕ = type ∷ (n % 65536 % 256) ∷ (n % 65536 / 256 % 256) ∷ [] in
    let size : length b ≡ off + room =
      omega
        (arith, ap length built.split ∙ length-append msg built.rest, built.offset, built.left) in
    let e : n % 65536 ≡ length v = omega arith in
    elim (Option-cases (write_bytes b off head)) [
      | inl cut ↦ rw cut
      | inr (b1, stored) ↦
          let same = length-write_bytes head b off stored in
          elim (Bool-cases (ltb room 3)) [
            | inl tight ↦ absurd (
                ground
                  (arith, stored, write_bytes-overflow head b off (ground arith) (omega arith)))
            | inr wide ↦ rw (
              stored,
              e,
              store_guarded b1 v (off + 3),
              write_bytes-overflow v b1 (off + 3) (ground arith) (ground arith),
            )
          ]
    ]
