-- ===== src/RiskMgmt/Ledger/Memory.antt =====
-- services/risk-mgmt/src/core/order_ledger.py: what the ledger remembers.
use market_app.Prelude.{
  ℕ, ◌+◌, ◌≤◌, ◌<◌, ◌∙◌, true, ◌≡◌, refl, Bool, inl, inr, some, [], ◌∷◌, ap, arith, ltb,
  if◌then◌else◌, length, take, ◌==◌, Option-cases,
}
use market_app.Prelude.Dict.{
  Dict, get, put, is_some, when, get-put, get-keep_values, HasDistinctKeys, put-HasDistinctKeys,
  keep_values-HasDistinctKeys,
}
use market_app.RiskMgmt.Ledger.{
  Ledger, Key, Key_eq, sessions_desc, among, already_placed, prune, record_order, snapshot, restore,
}
use market_app.RiskMgmt.Ledger.Sessions.{
  newer, length-sessions_desc-kept, among-sessions_desc, among-take-sessions_desc, newer-lt-length,
  newer-lt, SessionsBelow, put-SessionsBelow, keep_values-SessionsBelow,
}

abbrev pub IsValid : Ledger → Type 0
IsValid l = HasDistinctKeys l.placed

-- Whether an entry of session `s` survives a pruning of `d` to `n` sessions.
abbrev pub is_recent : ℕ → Dict Key ℕ → ℕ → Bool
is_recent n d s = ltb (newer s (sessions_desc d)) n

get-prune :
    (l : Ledger) (j : Key)
    → IsValid l
    → get j (prune l).placed ≡ when (is_recent l.keep_sessions l.placed) (get j l.placed)
unfolding prune
get-prune l j v = elim (Option-cases (get j l.placed)) [
  | inl e ↦ rw e (
      ground (
        arith,
        get-keep_values (among (take l.keep_sessions (sessions_desc l.placed))) j l.placed v,
      ))
  | inr (s, e) ↦ rw e (
      ground (
        arith,
        get-keep_values (among (take l.keep_sessions (sessions_desc l.placed))) j l.placed v,
        among-sessions_desc j s l.placed e,
        among-take-sessions_desc l.keep_sessions s l.placed,
        newer-lt-length s (sessions_desc l.placed),
      ))
]

pub prune-keep_sessions : (l : Ledger) → (prune l).keep_sessions ≡ l.keep_sessions
unfolding prune
prune-keep_sessions l = ground arith

prune-SessionsBelow :
    (bound : ℕ) (l : Ledger) → SessionsBelow bound l.placed → SessionsBelow bound (prune l).placed
unfolding prune
prune-SessionsBelow bound l h = ground (
  arith,
  h,
  keep_values-SessionsBelow bound (among (take l.keep_sessions (sessions_desc l.placed))) l.placed
      h,
)

prune-IsValid : (l : Ledger) → IsValid l → IsValid (prune l)
unfolding prune
prune-IsValid l v = ground (
  arith,
  keep_values-HasDistinctKeys (among (take l.keep_sessions (sessions_desc l.placed))) l.placed v,
)

-- Recording an order keeps each key of the ledger at one entry.
pub record_order-IsValid : (l : Ledger) (k : Key) → IsValid l → IsValid (record_order l k)
unfolding record_order
record_order-IsValid l k v =
    prune-IsValid (record l { placed = put k k.session l.placed })
      (put-HasDistinctKeys k k.session l.placed v)

-- In a ledger with one entry per key, after an order of key k is recorded, a key is known exactly
-- if it is k or was known before, and fewer than `keep_sessions` of the distinct recorded sessions
-- are newer than its own.
pub already_placed-record_order :
    (l : Ledger) (k j : Key)
    → IsValid l
    → let d = put k k.session l.placed in
      already_placed (record_order l k) j
      ≡ is_some
          (when (is_recent l.keep_sessions d) (if k == j then some k.session else get j l.placed))
unfolding already_placed record_order
already_placed-record_order l k j v =
    let d = put k k.session l.placed in
    rw (
      get-prune (record l { placed = d }) j (put-HasDistinctKeys k k.session l.placed v),
      get-put k j k.session l.placed,
    )

-- In a ledger with one entry per key, an order is remembered exactly if fewer than `keep_sessions`
-- of the recorded sessions are newer than its own: an order of an older session is forgotten by
-- the very call that records it.
pub order_remembered :
    (l : Ledger) (k : Key)
    → IsValid l
    → already_placed (record_order l k) k
      ≡ is_recent l.keep_sessions (put k k.session l.placed) k.session
order_remembered l k v =
    rw (already_placed-record_order l k k v) (ground (arith, Key_eq.beq_iff k k))

-- At most `keep_sessions` sessions are on record, which is so of every ledger that `record_order`
-- returns.
abbrev pub IsBounded : Ledger → Type 0
IsBounded l = length (sessions_desc l.placed) ≤ l.keep_sessions

prune-IsBounded : (l : Ledger) → IsBounded (prune l)
unfolding prune
prune-IsBounded l = ground (arith, length-sessions_desc-kept l.keep_sessions l.placed)

-- Whatever the ledger was, after an order is recorded it holds at most `keep_sessions` distinct
-- sessions.
pub record_order-IsBounded : (l : Ledger) (k : Key) → IsBounded (record_order l k)
unfolding record_order
record_order-IsBounded l k = prune-IsBounded (record l { placed = put k k.session l.placed })

-- A ledger of at most `keep_sessions` distinct sessions is restored from its snapshot by an empty
-- ledger of the same depth.
pub restore-snapshot :
    (l fresh : Ledger)
    → IsBounded l
    → fresh.placed ≡ []
    → fresh.keep_sessions ≡ l.keep_sessions
    → restore fresh (snapshot l) ≡ l
unfolding restore snapshot prune
restore-snapshot l fresh b e k = restore_entries l.placed refl
  where
    restore_entries : (d : Dict Key ℕ) → l.placed ≡ d → restore fresh d ≡ l
    restore_entries [] h = ground arith
    restore_entries (entry ∷ rest) h = ground (arith, ap sessions_desc h)

-- An empty ledger that restores the snapshot of another one, of whatever depth, with one entry per
-- key: it holds at most its own `keep_sessions` distinct sessions, and it knows exactly the keys of
-- the snapshot whose session has fewer than `keep_sessions` newer ones there.
pub restore_lem :
    (l fresh : Ledger) (j : Key)
    → IsValid l
    → fresh.placed ≡ []
    → let restored = restore fresh (snapshot l) in
      IsBounded restored
      × (restored.keep_sessions ≡ fresh.keep_sessions)
      × (already_placed restored j
          ≡ is_some (when (is_recent fresh.keep_sessions l.placed) (get j l.placed)))
unfolding restore snapshot already_placed sessions_desc get
restore_lem l fresh j v e = restored_entries l.placed v
  where
    restored_entries :
        (d : Dict Key ℕ)
        → HasDistinctKeys d
        → IsBounded (restore fresh d)
          × ((restore fresh d).keep_sessions ≡ fresh.keep_sessions)
          × (already_placed (restore fresh d) j
              ≡ is_some (when (is_recent fresh.keep_sessions d) (get j d)))
    restored_entries [] v = rw e (omega arith, refl, refl)
    restored_entries (entry ∷ rest) v =
        let l = record fresh { placed = entry ∷ rest } in
        (prune-IsBounded l, prune-keep_sessions l, rw (get-prune l j v) refl)

-- The ledger holds the key under its own session, one entry per key, and no session that is
-- `keep_sessions` days after it or later.
pub record Holds (k : Key) (l : Ledger) : Type 0 where
  pub valid : IsValid l
  pub none_too_new : SessionsBelow (k.session + l.keep_sessions) l.placed
  pub held : get k l.placed ≡ some k.session

prune-Holds : (k : Key) (l : Ledger) → 0 < l.keep_sessions → Holds k l → Holds k (prune l)
prune-Holds k l p h = record {
  valid = prune-IsValid l h.valid;
  none_too_new =
      rw (prune-keep_sessions l)
        (prune-SessionsBelow (k.session + l.keep_sessions) l h.none_too_new);
  held =
      get-prune l k h.valid
      ∙ ap (when (is_recent l.keep_sessions l.placed)) h.held
      ∙ rw (newer-lt k.session l.keep_sessions l.placed p h.none_too_new) refl;
}

-- An order of a session fewer than `keep_sessions` days after that of `k` leaves `k` in the ledger.
pub record_order-Holds :
    (k j : Key) (l : Ledger)
    → j.session < k.session + l.keep_sessions
    → 0 < l.keep_sessions
    → Holds k l
    → Holds k (record_order l j)
unfolding record_order
record_order-Holds k j l lt p h =
    prune-Holds k (record l { placed = put j j.session l.placed }) p
      (record {
        valid = put-HasDistinctKeys j j.session l.placed h.valid;
        none_too_new =
            put-SessionsBelow (k.session + l.keep_sessions) j.session j l.placed lt h.none_too_new;
        held = ground (arith, get-put j k j.session l.placed, h.held, Key_eq.beq_iff j k);
      })

-- An order is in the ledger that records it, where no session there is `keep_sessions` days later.
pub recorded-Holds :
    (k : Key) (l : Ledger)
    → IsValid l
    → 0 < l.keep_sessions
    → SessionsBelow (k.session + l.keep_sessions) l.placed
    → Holds k (record_order l k)
unfolding record_order
recorded-Holds k l v p h =
    prune-Holds k (record l { placed = put k k.session l.placed }) p
      (record {
        valid = put-HasDistinctKeys k k.session l.placed v;
        none_too_new =
            put-SessionsBelow (k.session + l.keep_sessions) k.session k l.placed (omega arith) h;
        held = ground (arith, get-put k k k.session l.placed, Key_eq.beq_iff k k);
      })

pub Holds-already_placed : (k : Key) (l : Ledger) → Holds k l → already_placed l k ≡ true
unfolding already_placed
Holds-already_placed k l h = rw (h.held) refl
