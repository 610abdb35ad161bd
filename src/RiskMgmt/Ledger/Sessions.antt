-- ===== src/RiskMgmt/Ledger/Sessions.antt =====
-- The distinct sessions of a ledger, newest first.
use market_app.Prelude.{
  ℕ, zero, suc, ◌+◌, ◌-◌, ◌≤◌, ◌<◌, ◌≡◌, refl, Bool, true, false, some, List, [], ◌∷◌, arith, ltb,
  if◌then◌else◌, length, take, length-take, ◌==◌, ℕ_eq, Bool-cases, inl, inr,
}
use market_app.Prelude.Dict.{Dict, get, put, keep_values}
use market_app.RiskMgmt.Ledger.{Key, Key_eq, insert_desc, sessions_desc, among}

-- Strictly falling.
abbrev Below : ℕ → List ℕ → Type 0
Below bound [] = Unit
Below bound (x ∷ xs) = (x < bound) × Below x xs

abbrev Falls : List ℕ → Type 0
Falls [] = Unit
Falls (x ∷ xs) = Below x xs

-- How many of the sessions are newer than `s`.
abbrev pub newer : ℕ → List ℕ → ℕ
newer s [] = 0
newer s (x ∷ xs) = (if ltb s x then 1 else 0) + newer s xs

insert_desc-Below :
    (bound s : ℕ) (xs : List ℕ) → s < bound → Below bound xs → Below bound (insert_desc s xs)
unfolding insert_desc
insert_desc-Below bound s [] h b = (h, tt)
insert_desc-Below bound s (x ∷ xs) h b = ground (arith, insert_desc-Below x s xs)

insert_desc-Falls : (s : ℕ) (xs : List ℕ) → Falls xs → Falls (insert_desc s xs)
unfolding insert_desc
insert_desc-Falls s [] f = tt
insert_desc-Falls s (x ∷ xs) f = ground (arith, insert_desc-Below x s xs)

sessions_desc-Falls : (d : Dict Key ℕ) → Falls (sessions_desc d)
unfolding sessions_desc
sessions_desc-Falls [] = tt
sessions_desc-Falls ((k, s) ∷ d) = insert_desc-Falls s (sessions_desc d) (sessions_desc-Falls d)

among-insert_desc :
    (s t : ℕ) (xs : List ℕ) → among (insert_desc s xs) t ≡ (if s == t then true else among xs t)
unfolding insert_desc
among-insert_desc s t [] = refl
among-insert_desc s t (x ∷ xs) = ground (arith, among-insert_desc s t xs)

-- The session of an entry is among the sessions.
pub among-sessions_desc :
    (k : Key) (s : ℕ) (d : Dict Key ℕ) → get k d ≡ some s → among (sessions_desc d) s ≡ true
unfolding sessions_desc get
among-sessions_desc k s [] h = cc
among-sessions_desc k s ((j, t) ∷ d) h =
    ground (arith, among-insert_desc t s (sessions_desc d), among-sessions_desc k s d)

newer-Below : (s bound : ℕ) (xs : List ℕ) → Below bound xs → bound ≤ s → newer s xs ≡ 0
newer-Below s bound [] b h = refl
newer-Below s bound (x ∷ xs) (lt, b) h = ground (arith, newer-Below s x xs b)

not-among-Below : (s bound : ℕ) (xs : List ℕ) → Below bound xs → bound ≤ s → among xs s ≡ false
not-among-Below s bound [] b h = refl
not-among-Below s bound (x ∷ xs) (lt, b) h = ground (arith, not-among-Below s x xs b)

among-take-Below :
    (n s bound : ℕ) (xs : List ℕ)
    → Below bound xs
    → among xs s ≡ true
    → among (take n xs) s ≡ ltb (newer s xs) n
among-take-Below zero s bound xs b h = ground arith
among-take-Below (suc n) s bound [] b h = cc
among-take-Below (suc n) s bound (x ∷ xs) (lt, b) h =
    ground (arith, among-take-Below n s x xs b, newer-Below s x xs b, not-among-Below s x xs b)

Falls-Below : (xs : List ℕ) → Falls xs → (bound : ℕ) × Below bound xs
Falls-Below [] f = (0, tt)
Falls-Below (x ∷ xs) f = (suc x, (omega arith, f))

-- Among the n newest sessions are just those with fewer than n newer ones.
pub among-take-sessions_desc :
    (n s : ℕ) (d : Dict Key ℕ)
    → among (sessions_desc d) s ≡ true
    → among (take n (sessions_desc d)) s ≡ ltb (newer s (sessions_desc d)) n
among-take-sessions_desc n s d h =
    let (bound, b) = Falls-Below (sessions_desc d) (sessions_desc-Falls d) in
    among-take-Below n s bound (sessions_desc d) b h

-- A session that is present is not newer than itself.
pub newer-lt-length : (s : ℕ) (xs : List ℕ) → among xs s ≡ true → newer s xs < length xs
newer-lt-length s [] h = cc
newer-lt-length s (x ∷ xs) h = ground (arith, newer-lt-length s xs, newer-le-length s xs)
  where
    newer-le-length : (s : ℕ) (xs : List ℕ) → newer s xs ≤ length xs
    newer-le-length s [] = omega arith
    newer-le-length s (x ∷ xs) = ground (arith, newer-le-length s xs)

Falls-of_Below : (xs : List ℕ) (bound : ℕ) → Below bound xs → Falls xs
Falls-of_Below [] bound b = tt
Falls-of_Below (x ∷ xs) bound b = b.1

lt_of_among-Below : (s bound : ℕ) (xs : List ℕ) → Below bound xs → among xs s ≡ true → s < bound
lt_of_among-Below s bound [] b h = cc
lt_of_among-Below s bound (x ∷ xs) (lt, b) h = ground (arith, lt_of_among-Below s x xs b)

-- A strictly falling list of elements of another one is no longer.
length-le_of_among :
    (ys xs : List ℕ)
    → Falls ys
    → Falls xs
    → ((s : ℕ) → among ys s ≡ true → among xs s ≡ true)
    → length ys ≤ length xs
length-le_of_among [] xs f g sub = omega arith
length-le_of_among (y ∷ ys) [] f g sub = cc (sub y (ground arith))
length-le_of_among (y ∷ ys) (x ∷ xs) f g sub = elim (Bool-cases (x == y)) [
  | inl same ↦
      let rest : (s : ℕ) → among ys s ≡ true → among xs s ≡ true =
        λ s h. ground (arith, sub s, lt_of_among-Below s y ys f h) in
      omega (arith, length-le_of_among ys xs (Falls-of_Below ys y f) (Falls-of_Below xs x g) rest)
  | inr other ↦
      let rest : (s : ℕ) → among (y ∷ ys) s ≡ true → among xs s ≡ true = λ s h.
        ground (arith, sub s h, sub y, lt_of_among-Below s y ys f, lt_of_among-Below y x xs g) in
      omega (arith, length-le_of_among (y ∷ ys) xs f (Falls-of_Below xs x g) rest)
]

take-Below : (n bound : ℕ) (xs : List ℕ) → Below bound xs → Below bound (take n xs)
take-Below zero bound xs b = tt
take-Below (suc n) bound [] b = tt
take-Below (suc n) bound (x ∷ xs) (lt, b) = (lt, take-Below n x xs b)

take-Falls : (n : ℕ) (xs : List ℕ) → Falls xs → Falls (take n xs)
take-Falls zero xs f = tt
take-Falls (suc n) [] f = tt
take-Falls (suc n) (x ∷ xs) f = take-Below n x xs f

among-kept :
    (p : ℕ → Bool) (s : ℕ) (d : Dict Key ℕ)
    → among (sessions_desc (keep_values p d)) s ≡ true
    → p s ≡ true
unfolding sessions_desc keep_values
among-kept p s [] h = cc
among-kept p s ((k, t) ∷ d) h =
    ground (arith, among-insert_desc t s (sessions_desc (keep_values p d)), among-kept p s d)

-- Pruning to the n newest sessions leaves at most n sessions.
pub length-sessions_desc-kept :
    (n : ℕ) (d : Dict Key ℕ)
    → length (sessions_desc (keep_values (among (take n (sessions_desc d))) d)) ≤ n
length-sessions_desc-kept n d =
    let newest = take n (sessions_desc d) in
    let kept = keep_values (among newest) d in
    omega (
      arith,
      length-take n (sessions_desc d),
      length-le_of_among (sessions_desc kept) newest (sessions_desc-Falls kept)
          (take-Falls n (sessions_desc d) (sessions_desc-Falls d))
          (λ s. among-kept (among newest) s d),
    )

-- Every session of a dictionary is below a bound.
abbrev pub SessionsBelow : ℕ → Dict Key ℕ → Type 0
SessionsBelow bound [] = Unit
SessionsBelow bound ((k, s) ∷ d) = (s < bound) × SessionsBelow bound d

sessions_desc-Below :
    (bound : ℕ) (d : Dict Key ℕ) → SessionsBelow bound d → Below bound (sessions_desc d)
unfolding sessions_desc
sessions_desc-Below bound [] h = tt
sessions_desc-Below bound ((k, s) ∷ d) (h, hs) =
    insert_desc-Below bound s (sessions_desc d) h (sessions_desc-Below bound d hs)

newer-le : (s bound : ℕ) (xs : List ℕ) → Below bound xs → newer s xs ≤ bound - suc s
newer-le s bound [] b = omega arith
newer-le s bound (x ∷ xs) (lt, b) = ground (arith, newer-le s x xs b)

-- Where all sessions are fewer than `n` days after `s`, fewer than `n` of them are newer.
pub newer-lt :
    (s n : ℕ) (d : Dict Key ℕ)
    → 0 < n
    → SessionsBelow (s + n) d
    → ltb (newer s (sessions_desc d)) n ≡ true
newer-lt s n d p h =
    ground (arith, newer-le s (s + n) (sessions_desc d) (sessions_desc-Below (s + n) d h))

pub put-SessionsBelow :
    (bound s : ℕ) (k : Key) (d : Dict Key ℕ)
    → s < bound
    → SessionsBelow bound d
    → SessionsBelow bound (put k s d)
unfolding put
put-SessionsBelow bound s k [] h hs = (h, tt)
put-SessionsBelow bound s k ((j, t) ∷ d) h (g, hs) = elim (Bool-cases (j == k)) [
  | inl same ↦ rw same (h, hs)
  | inr other ↦ rw other (g, put-SessionsBelow bound s k d h hs)
]

pub keep_values-SessionsBelow :
    (bound : ℕ) (p : ℕ → Bool) (d : Dict Key ℕ)
    → SessionsBelow bound d
    → SessionsBelow bound (keep_values p d)
unfolding keep_values
keep_values-SessionsBelow bound p [] hs = tt
keep_values-SessionsBelow bound p ((j, t) ∷ d) (g, hs) = elim (Bool-cases (p t)) [
  | inl keeps ↦ rw keeps (g, keep_values-SessionsBelow bound p d hs)
  | inr drops ↦ rw drops (keep_values-SessionsBelow bound p d hs)
]
