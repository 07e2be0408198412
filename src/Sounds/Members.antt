-- ===== src/Sounds/Members.antt =====
-- The sorted entries of alarm-daemon/src/audio/sounds.rs are known by their members.
use alarm_daemon.Base.{
  ◌≡◌, ◌⊎◌, refl, sym, ◌∙◌, true, false, List, [], ◌∷◌, arith, inl, inr, Bool-cases,
}
use alarm_daemon.Base.Bytes.{Bytes, bytes_eq}
use alarm_daemon.Sounds.Library.{SoundSummary, bytes_lt, insert, ids}
use alarm_daemon.Sounds.Order.{Above, IsSorted, Has}

pub bytes_lt_trans :
    (s t u : Bytes) → bytes_lt s t ≡ true → bytes_lt t u ≡ true → bytes_lt s u ≡ true
unfolding bytes_lt
bytes_lt_trans s [] u h k = cc
bytes_lt_trans s (b ∷ t) [] h k = cc
bytes_lt_trans [] (b ∷ t) (c ∷ u) h k = refl
bytes_lt_trans (a ∷ s) (b ∷ t) (c ∷ u) h k = ground (arith, bytes_lt_trans s t u)

pub bytes_lt_irrefl : (s : Bytes) → bytes_lt s s ≡ false
unfolding bytes_lt
bytes_lt_irrefl [] = refl
bytes_lt_irrefl (a ∷ s) = ground (arith, bytes_lt_irrefl s)

-- What stands below the first of a sorted list stands below each.
Above-Has :
    (id x : Bytes) (ts : List SoundSummary)
    → Above id ts
    → IsSorted ts
    → Has x ts
    → bytes_lt id x ≡ true
Above-Has id x [] a h m = absurd m
Above-Has id x (t ∷ ts) a h (inl e) = rw (← e) a
Above-Has id x (t ∷ ts) a h (inr m) = bytes_lt_trans id t.id x a (Above-Has t.id x ts h.0 h.1 m)

not_below : (s t : Bytes) → s ≡ t → ¬ (bytes_lt s t ≡ true)
not_below s t e h = let no : bytes_lt t t ≡ true = rw e at h in cc (bytes_lt_irrefl t)

-- Two sorted lists with the same members start alike.
heads :
    (t u : SoundSummary) (ts us : List SoundSummary)
    → IsSorted (t ∷ ts)
    → IsSorted (u ∷ us)
    → Has t.id (u ∷ us)
    → Has u.id (t ∷ ts)
    → t.id ≡ u.id
heads t u ts us h k (inl e) m = sym e
heads t u ts us h k (inr n) (inl e) = e
heads t u ts us h k (inr n) (inr m) = absurd (
    not_below t.id t.id refl (
      bytes_lt_trans t.id u.id t.id (Above-Has t.id u.id ts h.0 h.1 m)
        (Above-Has u.id t.id us k.0 k.1 n)))

tail_member :
    (t u : SoundSummary) (ts us : List SoundSummary) (id : Bytes)
    → IsSorted (t ∷ ts)
    → t.id ≡ u.id
    → Has id ts
    → Has id (u ∷ us)
    → Has id us
tail_member t u ts us id h e m (inr n) = n
tail_member t u ts us id h e m (inl f) =
    absurd (not_below t.id id (e ∙ f) (Above-Has t.id id ts h.0 h.1 m))

-- A sorted list has the ids that its members say, in the one order.
pub same_members :
    (l m : List SoundSummary)
    → IsSorted l
    → IsSorted m
    → ((id : Bytes) → Has id l → Has id m)
    → ((id : Bytes) → Has id m → Has id l)
    → ids l ≡ ids m
same_members [] [] h k f g = refl
same_members [] (u ∷ us) h k f g = absurd (g u.id (inl refl))
same_members (t ∷ ts) [] h k f g = absurd (f t.id (inl refl))
same_members (t ∷ ts) (u ∷ us) h k f g =
    let e = heads t u ts us h k (f t.id (inl refl)) (g u.id (inl refl)) in
    let rest =
      same_members ts us h.1 k.1 (λ id n. tail_member t u ts us id h e n (f id (inr n)))
        (λ id n. tail_member u t us ts id k (sym e) n (g id (inr n))) in
    rw (e, rest) refl

dropped :
    (id : Bytes) (s t : SoundSummary) (ts : List SoundSummary)
    → Has id (s ∷ ts)
    → (s.id ≡ id) ⊎ Has id (t ∷ ts)
dropped id s t ts (inl e) = inl e
dropped id s t ts (inr m) = inr (inr m)

behind :
    (id : Bytes) (s t : SoundSummary) (ts us : List SoundSummary)
    → (Has id us → (s.id ≡ id) ⊎ Has id ts)
    → Has id (t ∷ us)
    → (s.id ≡ id) ⊎ Has id (t ∷ ts)
behind id s t ts us f (inl e) = inr (inl e)
behind id s t ts us f (inr m) = elim (f m) [ inl e ↦ inl e | inr n ↦ inr (inr n) ]

pub Has-insert_inv :
    (id : Bytes) (s : SoundSummary) (ts : List SoundSummary)
    → Has id (insert s ts)
    → (s.id ≡ id) ⊎ Has id ts
unfolding insert
Has-insert_inv id s [] (inl e) = inl e
Has-insert_inv id s [] (inr m) = absurd m
Has-insert_inv id s (t ∷ ts) m = elim (Bool-cases (bytes_lt s.id t.id)) [
  | inl e ↦ rw (e, insert) at m
  | inr e ↦ elim (Bool-cases (bytes_eq s.id t.id)) [
    | inl f ↦ dropped id s t ts (rw (e, f, insert) at m)
    | inr f ↦ behind id s t ts (insert s ts) (Has-insert_inv id s ts) (rw (e, f, insert) at m)
  ]
]
