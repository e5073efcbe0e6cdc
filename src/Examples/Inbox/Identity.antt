-- ===== src/Examples/Inbox/Identity.antt =====
-- The identity that two rows are compared by, and where a search of the table finds its row.
use mathlib.Core.List.{[], ◌∷◌, Mem, mem-append_right, mem-cons_self, mem-cons_of_mem}
use mizan_client_sdks.Base.{
  ℕ, String, ◌≡◌, refl, sym, ap, inl, inr, Bool, true, false, ◌&&◌, Option, none, some, List, ◌++◌,
  arith, ◌==◌, eq_iff, eq_refl, nat_eq, Bool-cases, Option-cases,
}
use mizan_client_sdks.Base.Int.{ℤ, eq_of_parts}
use mizan_client_sdks.Webhooks.Receiver.{returned}
use mizan_client_sdks.Examples.Inbox.Steps.{
  persist_rows-unbound, persist_rows-taken, persist_rows-free,
}
use mizan_client_sdks.Examples.Inbox.{
  is_some, Row, same_integer, same_sequence, same_bytes, same_identity, find_outbox, find_event,
  is_taken, persist_rows, resolve, can_bind, compared,
}

-- the two rows are of one event, with one body
pub record SameEvent (a b : Row) : Type 0 where
  pub stream : a.stream ≡ b.stream
  pub event_id : a.event_id ≡ b.event_id
  pub business_id : a.business_id ≡ b.business_id
  pub business_sequence : a.business_sequence ≡ b.business_sequence
  pub payload : a.payload ≡ b.payload

nat_eq_refl : (n : ℕ) → nat_eq n n ≡ true
nat_eq_refl n = ground arith

same_integer-eq : (a b : ℤ) → same_integer a b ≡ true → a ≡ b
same_integer-eq a b h = ground (arith, eq_of_parts a b)

same_integer_refl : (a : ℤ) → same_integer a a ≡ true
same_integer_refl a = ground arith

same_sequence-eq : (a b : Option ℤ) → same_sequence a b ≡ true → a ≡ b
same_sequence-eq none none h = refl
same_sequence-eq (some a) (some b) h = ap some (same_integer-eq a b h)
same_sequence-eq none (some b) h = cc
same_sequence-eq (some a) none h = cc

same_sequence_refl : (a : Option ℤ) → same_sequence a a ≡ true
same_sequence_refl none = refl
same_sequence_refl (some a) = same_integer_refl a

same_bytes-eq : (a b : List ℕ) → same_bytes a b ≡ true → a ≡ b
unfolding same_bytes
same_bytes-eq [] [] h = refl
same_bytes-eq [] (y ∷ ys) h = cc
same_bytes-eq (x ∷ xs) [] h = cc
same_bytes-eq (x ∷ xs) (y ∷ ys) h = ground (arith, same_bytes-eq xs ys)

same_bytes_refl : (a : List ℕ) → same_bytes a a ≡ true
unfolding same_bytes
same_bytes_refl [] = refl
same_bytes_refl (x ∷ xs) = rw (nat_eq_refl x) (same_bytes_refl xs)

and_left : (a b : Bool) → a && b ≡ true → a ≡ true
and_left true b h = refl
and_left false b h = h

and_right : (a b : Bool) → a && b ≡ true → b ≡ true
and_right true b h = h
and_right false b h = cc

same_identity-SameEvent : (a b : Row) → same_identity a b ≡ true → SameEvent a b
unfolding same_identity
same_identity-SameEvent a b h = record {
  stream = ground (arith, eq_iff a.stream b.stream);
  event_id = ground (arith, eq_iff a.event_id b.event_id);
  business_id = ground (arith, eq_iff a.business_id b.business_id);
  business_sequence = ground (arith, same_sequence-eq a.business_sequence b.business_sequence);
  payload = ground (arith, same_bytes-eq a.payload b.payload);
}

pub same_identity_refl : (a : Row) → same_identity a a ≡ true
unfolding same_identity
same_identity_refl a =
    simp (eq_refl, same_sequence_refl a.business_sequence, same_bytes_refl a.payload)

find_outbox-Mem :
    (o : String) (rows : List Row) (r : Row) → find_outbox o rows ≡ some r → Mem r rows
unfolding find_outbox
find_outbox-Mem o [] r h = cc
find_outbox-Mem o (x ∷ xs) r h = elim (Bool-cases (x.outbox_id == o)) [
  | inl e ↦ let same : x ≡ r = cc (rw e at h) in rw (sym same) mem-cons_self
  | inr e ↦ mem-cons_of_mem x (find_outbox-Mem o xs r (rw e at h))
]

find_event-Mem :
    (s e : String) (rows : List Row) (r : Row) → find_event s e rows ≡ some r → Mem r rows
unfolding find_event
find_event-Mem s e [] r h = cc
find_event-Mem s e (x ∷ xs) r h = elim (Bool-cases ((x.stream == s) && (x.event_id == e))) [
  | inl k ↦ let same : x ≡ r = cc (rw k at h) in rw (sym same) mem-cons_self
  | inr k ↦ mem-cons_of_mem x (find_event-Mem s e xs r (rw k at h))
]

pub find_outbox-fresh :
    (r : Row) (rows : List Row)
    → is_some (find_outbox r.outbox_id rows) ≡ false
    → find_outbox r.outbox_id (rows ++ (r ∷ [])) ≡ some r
unfolding find_outbox
find_outbox-fresh r [] h = rw (eq_refl r.outbox_id) refl
find_outbox-fresh r (x ∷ xs) h = elim (Bool-cases (x.outbox_id == r.outbox_id)) [
  | inl e ↦ absurd (cc (rw e at h))
  | inr e ↦ rw e (find_outbox-fresh r xs (rw e at h))
]

compared-SameEvent : (old r : Row) → compared old r ≡ returned → SameEvent old r
compared-SameEvent old r h = elim (Bool-cases (same_identity old r)) [
  | inl e ↦ same_identity-SameEvent old r e
  | inr e ↦ absurd (cc (rw e at h))
]

-- the event and the body of a row are in the table
abbrev pub Recorded : Row → List Row → Type 0
Recorded r rows = (old : Row) × Mem old rows × SameEvent old r

-- a key conflict that is passed over is with the row's own event
resolve-Recorded : (r : Row) (rows : List Row) → resolve r rows ≡ returned → Recorded r rows
unfolding resolve
resolve-Recorded r rows h = elim (Option-cases (find_outbox r.outbox_id rows)) [
  | inr (old, e) ↦
      (old, find_outbox-Mem r.outbox_id rows old e, compared-SameEvent old r (rw (e, resolve) at h))
  | inl e ↦ elim (Option-cases (find_event r.stream r.event_id rows)) [
    | inr (old, k) ↦ (
      old,
      find_event-Mem r.stream r.event_id rows old k,
      compared-SameEvent old r (rw (e, k, resolve) at h),
    )
    | inl k ↦ absurd (cc (rw (e, k, resolve) at h))
  ]
]

SameEvent-refl : (r : Row) → SameEvent r r
SameEvent-refl r = record {
  stream = refl;
  event_id = refl;
  business_id = refl;
  business_sequence = refl;
  payload = refl;
}

-- an access that returns has recorded the row
pub persist_rows-Recorded :
    (r : Row) (rows : List Row)
    → (persist_rows r rows).0 ≡ returned
    → Recorded r (persist_rows r rows).1
persist_rows-Recorded r rows h = elim (Bool-cases (can_bind r.business_sequence)) [
  | inr b ↦ absurd (cc (rw (persist_rows-unbound r rows b) at h))
  | inl b ↦ elim (Bool-cases (is_taken r rows)) [
    | inl e ↦
        let same = persist_rows-taken r rows b e in rw same (resolve-Recorded r rows (rw same at h))
    | inr e ↦
        rw (persist_rows-free r rows b e) (r, mem-append_right rows mem-cons_self, SameEvent-refl r)
  ]
]
