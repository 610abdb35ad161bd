-- ===== src/Aggregator/Service/Live.antt =====
-- services/signal-aggregator/src/core/service.py: which buffered signals are alive.
use market_app.Prelude.{
  String, String_eq, ◌≡◌, ◌⊎◌, inl, inr, refl, sym, Bool, true, false, not, some, List, [], ◌∷◌,
  if◌then◌else◌, Option-cases, arith,
}
use mathlib.Core.Path.{subst}
use market_app.Prelude.Dict.{Dict, get, keep_values}
use market_app.Prelude.Int.{ℤ, ◌-ℤ◌}
use market_app.Float.{Float, lt, quot, of_int, literal}
use market_app.Aggregator.Service.{
  BufferedSignal, Service, before, insert_entry, sorted_entries, entries_of, expired, prune_symbol,
  live_entries,
}

-- An element of a list.
pub data In {A : Type 0} : A → List A → Type 0 where
  here : {x : A} {xs : List A} → In x (x ∷ xs)
  there : {x y : A} {xs : List A} → In x xs → In x (y ∷ xs)

module _ {F : Type 0} where
  In-insert_if :
      (a b : String) (x f e : BufferedSignal F) (d rest : Dict String (BufferedSignal F)) (t : Bool)
      → (In e (entries_of rest) → (x ≡ e) ⊎ In e (entries_of d))
      → In e (entries_of (if t then (a, x) ∷ (b, f) ∷ d else (b, f) ∷ rest))
      → (x ≡ e) ⊎ In e (f ∷ entries_of d)
  In-insert_if a b x f _ d rest true h here = inl refl
  In-insert_if a b x f e d rest true h (there i) = inr i
  In-insert_if a b x f _ d rest false h here = inr here
  In-insert_if a b x f e d rest false h (there i) = elim (h i) [
    | inl same ↦ inl same
    | inr among ↦ inr (there among)
  ]

  In-insert_entry :
      (a : String) (x e : BufferedSignal F) (d : Dict String (BufferedSignal F))
      → In e (entries_of (insert_entry a x d))
      → (x ≡ e) ⊎ In e (entries_of d)
  unfolding insert_entry
  In-insert_entry a x _ [] here = inl refl
  In-insert_entry a x e [] (there i) = inr i
  In-insert_entry a x e ((b, f) ∷ d) i =
      In-insert_if a b x f e d (insert_entry a x d) (before a b) (In-insert_entry a x e d) i

  -- Sorting adds nothing.
  In-sorted_entries :
      (e : BufferedSignal F) (d : Dict String (BufferedSignal F))
      → In e (entries_of (sorted_entries d))
      → In e (entries_of d)
  unfolding sorted_entries
  In-sorted_entries e [] i = i
  In-sorted_entries e ((a, x) ∷ d) i = elim (In-insert_entry a x e (sorted_entries d) i) [
    | inl same ↦ subst (λ f. In f (x ∷ entries_of d)) same here
    | inr later ↦ there (In-sorted_entries e d later)
  ]

  In-keep_if :
      (p : BufferedSignal F → Bool) (a : String) (x e : BufferedSignal F)
      (d rest : Dict String (BufferedSignal F)) (t : Bool)
      → p x ≡ t
      → (In e (entries_of rest) → In e (entries_of d) × (p e ≡ true))
      → In e (entries_of (if t then (a, x) ∷ rest else rest))
      → In e (x ∷ entries_of d) × (p e ≡ true)
  In-keep_if p a x _ d rest true k h here = (here, k)
  In-keep_if p a x e d rest true k h (there i) = let (among, keeps) = h i in (there among, keeps)
  In-keep_if p a x e d rest false k h i = let (among, keeps) = h i in (there among, keeps)

  In-keep_values :
      (p : BufferedSignal F → Bool) (e : BufferedSignal F) (d : Dict String (BufferedSignal F))
      → In e (entries_of (keep_values p d))
      → In e (entries_of d) × (p e ≡ true)
  unfolding keep_values
  In-keep_values p e [] i = elim i [ ]
  In-keep_values p e ((a, x) ∷ d) i =
      In-keep_if p a x e d (keep_values p d) (p x) refl (In-keep_values p e d) i

module _ {F : Type 0} ⦃fl : Float F⦄ where
  -- The signal is buffered for the symbol, and not more than `ttl_s` seconds old.
  abbrev pub IsLive : ℤ → String → Service F → BufferedSignal F → Type 0
  IsLive now symbol s e =
      ((by_strategy : Dict String (BufferedSignal F)) × (get symbol s.buffer ≡ some by_strategy)
        × In e (entries_of by_strategy))
      × (lt s.ttl_s (quot (of_int (now -ℤ e.at)) (literal 1_000_000 0)) ≡ false)

  In-prune_symbol :
      (symbol : String) (live : Dict String (BufferedSignal F)) (s : Service F)
      (e : BufferedSignal F)
      → In e (prune_symbol symbol live s).0
      → In e (entries_of live)
  unfolding prune_symbol
  In-prune_symbol symbol [] s e i = elim i [ ]
  In-prune_symbol symbol (entry ∷ rest) s e i = In-sorted_entries e (entry ∷ rest) i

  pruned-IsLive :
      (now : ℤ) (symbol : String) (s : Service F) (e : BufferedSignal F)
      (entry : String × BufferedSignal F) (rest : Dict String (BufferedSignal F))
      → get symbol s.buffer ≡ some (entry ∷ rest)
      → In e
          (prune_symbol symbol
            (keep_values (λ e. not (expired now s.ttl_s e.at)) (entry ∷ rest))
            s).0
      → IsLive now symbol s e
  pruned-IsLive now symbol s e entry rest known i =
      let live = keep_values (λ e. not (expired now s.ttl_s e.at)) (entry ∷ rest) in
      let (among, fresh) =
        In-keep_values (λ e. not (expired now s.ttl_s e.at)) e (entry ∷ rest)
          (In-prune_symbol symbol live s e i) in
      ((entry ∷ rest, known, among), ground (arith, fresh))

  pub In-live_entries :
      (now : ℤ) (symbol : String) (s : Service F) (e : BufferedSignal F)
      → In e (live_entries now symbol s).0
      → IsLive now symbol s e
  unfolding live_entries
  In-live_entries now symbol s e = elim (Option-cases (get symbol s.buffer)) [
    | inl missing ↦
        let nothing : live_entries now symbol s ≡ ([], s) = rw (live_entries, missing) refl in
        subst (λ r. In e r.0 → IsLive now symbol s e) (sym nothing) (λ i. elim i [ ])
    | inr ([], known) ↦
        let nothing : live_entries now symbol s ≡ ([], s) = rw (live_entries, known) refl in
        subst (λ r. In e r.0 → IsLive now symbol s e) (sym nothing) (λ i. elim i [ ])
    | inr (entry ∷ rest, known) ↦
        let pruned : live_entries now symbol s
            ≡ prune_symbol symbol (keep_values (λ e. not (expired now s.ttl_s e.at)) (entry ∷ rest))
                s =
          rw (live_entries, known) refl in
        subst (λ r. In e r.0 → IsLive now symbol s e) (sym pruned)
          (pruned-IsLive now symbol s e entry rest known)
  ]
