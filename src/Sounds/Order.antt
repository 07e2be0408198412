-- ===== src/Sounds/Order.antt =====
-- The sorted entries that stand for the `BTreeMap` of alarm-daemon/src/audio/sounds.rs.
use alarm_daemon.Base.{
  ◌≡◌, ◌⊎◌, refl, ◌∙◌, true, false, List, [], ◌∷◌, arith, All, Bool-cases, inl, inr,
}
use alarm_daemon.Base.Bytes.{Bytes, bytes_eq, bytes_eq_iff}
use alarm_daemon.Sounds.Library.{SoundSummary, bytes_lt, insert}

bytes_lt-trichotomy :
    (s t : Bytes) → bytes_lt s t ≡ false → bytes_eq s t ≡ false → bytes_lt t s ≡ true
unfolding bytes_lt bytes_eq
bytes_lt-trichotomy [] [] h e = cc
bytes_lt-trichotomy [] (b ∷ t) h e = cc
bytes_lt-trichotomy (a ∷ s) [] h e = refl
bytes_lt-trichotomy (a ∷ s) (b ∷ t) h e = ground (arith, bytes_lt-trichotomy s t)

-- Each id is below the next.
abbrev pub Above : Bytes → List SoundSummary → Type 0
Above id [] = Unit {0}
Above id (t ∷ ts) = bytes_lt id t.id ≡ true

abbrev pub IsSorted : List SoundSummary → Type 0
IsSorted [] = Unit {0}
IsSorted (t ∷ ts) = Above t.id ts × IsSorted ts

Above-insert :
    (id : Bytes) (s : SoundSummary) (ts : List SoundSummary)
    → bytes_lt id s.id ≡ true
    → Above id ts
    → Above id (insert s ts)
unfolding insert
Above-insert id s [] h a = h
Above-insert id s (t ∷ ts) h a = ground arith

Above-eq : {a b : Bytes} → a ≡ b → (ts : List SoundSummary) → Above b ts → Above a ts
Above-eq e ts h = rw e h

pub insert-IsSorted :
    (s : SoundSummary) (ts : List SoundSummary) → IsSorted ts → IsSorted (insert s ts)
unfolding insert
insert-IsSorted s [] h = (tt, tt)
insert-IsSorted s (t ∷ ts) h = elim (Bool-cases (bytes_lt s.id t.id)) [
  | inl e ↦ rw (e, insert) (e, h)
  | inr e ↦ elim (Bool-cases (bytes_eq s.id t.id)) [
    | inl f ↦ rw (e, insert, f) (Above-eq ((bytes_eq_iff s.id t.id).0 f) ts h.0, h.1)
    | inr f ↦
        rw (e, insert, f)
          (Above-insert t.id s ts (bytes_lt-trichotomy s.id t.id e f) h.0, insert-IsSorted s ts h.1)
  ]
]

pub insert-All :
    (P : SoundSummary → Type 0) (s : SoundSummary) (ts : List SoundSummary)
    → P s
    → All P ts
    → All P (insert s ts)
unfolding insert
insert-All P s [] p h = (p, tt)
insert-All P s (t ∷ ts) p h = elim (Bool-cases (bytes_lt s.id t.id)) [
  | inl e ↦ rw (e, insert) (p, h)
  | inr e ↦ elim (Bool-cases (bytes_eq s.id t.id)) [
    | inl f ↦ rw (e, insert, f) (p, h.1)
    | inr f ↦ rw (e, insert, f) (h.0, insert-All P s ts p h.1)
  ]
]

-- An id is in the list.
abbrev pub Has : Bytes → List SoundSummary → Type 0
Has id [] = ⊥
Has id (t ∷ ts) = (t.id ≡ id) ⊎ Has id ts

pub Has-insert_self : (s : SoundSummary) (ts : List SoundSummary) → Has s.id (insert s ts)
unfolding insert
Has-insert_self s [] = inl refl
Has-insert_self s (t ∷ ts) = elim (Bool-cases (bytes_lt s.id t.id)) [
  | inl e ↦ rw (e, insert) (inl refl)
  | inr e ↦ elim (Bool-cases (bytes_eq s.id t.id)) [
    | inl f ↦ rw (e, insert, f) (inl refl)
    | inr f ↦ rw (e, insert, f) (inr (Has-insert_self s ts))
  ]
]

Has-replaced :
    {id : Bytes} (s t : SoundSummary) (ts : List SoundSummary)
    → s.id ≡ t.id
    → Has id (t ∷ ts)
    → Has id (s ∷ ts)
Has-replaced s t ts e (inl p) = inl (e ∙ p)
Has-replaced s t ts e (inr q) = inr q

Has-cons :
    {id : Bytes} (t : SoundSummary) (ts us : List SoundSummary)
    → (Has id ts → Has id us)
    → Has id (t ∷ ts)
    → Has id (t ∷ us)
Has-cons t ts us f (inl p) = inl p
Has-cons t ts us f (inr q) = inr (f q)

pub Has-insert :
    (id : Bytes) (s : SoundSummary) (ts : List SoundSummary) → Has id ts → Has id (insert s ts)
unfolding insert
Has-insert id s [] h = absurd h
Has-insert id s (t ∷ ts) h = elim (Bool-cases (bytes_lt s.id t.id)) [
  | inl e ↦ rw (e, insert) (inr h)
  | inr e ↦ elim (Bool-cases (bytes_eq s.id t.id)) [
    | inl f ↦ rw (e, insert, f) (Has-replaced s t ts ((bytes_eq_iff s.id t.id).0 f) h)
    | inr f ↦ rw (e, insert, f) (Has-cons t ts (insert s ts) (Has-insert id s ts) h)
  ]
]
