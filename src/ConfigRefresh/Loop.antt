-- ===== src/ConfigRefresh/Loop.antt =====
-- When a new configuration is accepted.
use asserts_otel_processor.Base.{
  ◌≡◌, refl, true, false, List, [], ◌∷◌, ◌++◌, Option, none, some, All, Bool-cases, inl, inr,
}
use asserts_otel_processor.Config.{Config}
use asserts_otel_processor.ConfigRefresh.{ConfigListener, notify, adopt_unless, update_config}

module _ {S E : Type 0} (current : S → Config) (adopt : S → Config → S) where
  -- The listeners that the loop calls, in order, each with the state before and what it returns.
  pub data Calls (latest : Config)
      : List (ConfigListener S E) → S → List (Option E) → S → Type 0 where
    done : {s : S} → Calls latest [] s [] s
    call :
        {l : ConfigListener S E} {ls : List (ConfigListener S E)} {s t : S} {errs : List (Option E)}
        → l.is_updated s (current s) latest ≡ true
        → Calls latest ls (l.on_update s latest).0 errs t
        → Calls latest (l ∷ ls) s ((l.on_update s latest).1 ∷ errs) t
    skip :
        {l : ConfigListener S E} {ls : List (ConfigListener S E)} {s t : S} {errs : List (Option E)}
        → l.is_updated s (current s) latest ≡ false
        → Calls latest ls s errs t
        → Calls latest (l ∷ ls) s errs t

  -- The last of the results, or the given one.
  abbrev pub last_result : List (Option E) → Option E → Option E
  last_result [] e = e
  last_result (f ∷ errs) e = last_result errs f

  notify-last :
      (latest : Config) {ls : List (ConfigListener S E)} {s t : S} {errs : List (Option E)}
      (e : Option E)
      → Calls latest ls s errs t
      → notify current adopt ls latest s e ≡ (t, last_result errs e)
  unfolding notify
  notify-last latest e done = refl
  notify-last latest e (call {l = l} {s = s} h c) =
      rw h (notify-last latest (l.on_update s latest).1 c)
  notify-last latest e (skip h c) = rw h (notify-last latest e c)

  -- The loop calls exactly the listeners that see a change, each in the state that the earlier
  -- ones left. The new configuration is then adopted if the last of these calls succeeded, or if there
  -- was none; whether an earlier call failed has no influence.
  pub update_config-last :
      (latest : Config) (ls : List (ConfigListener S E)) (s t : S) (errs : List (Option E))
      → Calls latest ls s errs t
      → update_config current adopt ls latest s
        ≡ adopt_unless current adopt latest (t, last_result errs none)
  unfolding update_config
  update_config-last latest ls s t errs c = rw (notify-last latest none c)

  -- Every run of the loop is described by such calls.
  pub Calls-total :
      (latest : Config) (ls : List (ConfigListener S E)) (s : S)
      → (errs : List (Option E)) × (t : S) × Calls latest ls s errs t
  Calls-total latest [] s = ([], s, done)
  Calls-total latest (l ∷ ls) s = elim (Bool-cases (l.is_updated s (current s) latest)) [
    | inl e ↦ let (errs, t, c) = Calls-total latest ls (l.on_update s latest).0 in (_, t, call e c)
    | inr e ↦ let (errs, t, c) = Calls-total latest ls s in (errs, t, skip e c)
  ]

  -- Two listeners see a change, the first fails and the second succeeds: the configuration that the
  -- first refused is adopted.
  pub update_config-failure_lost :
      (latest : Config) (bad good : ConfigListener S E) (s t u : S) (e : E)
      → bad.is_updated s (current s) latest ≡ true
      → bad.on_update s latest ≡ (t, some e)
      → good.is_updated t (current t) latest ≡ true
      → good.on_update t latest ≡ (u, none)
      → update_config current adopt (bad ∷ good ∷ []) latest s ≡ adopt u latest
  unfolding update_config notify
  update_config-failure_lost latest bad good s t u e p q p' q' = rw (p, q) (rw (p', q') refl)

  -- What every update keeps holds after the loop.
  pub notify-keeps {κ} :
      (P : S → Type κ) (latest : Config) (ls : List (ConfigListener S E))
      → All (λ (l : ConfigListener S E). (s : S) → P s → P (l.on_update s latest).0) ls
      → (s : S) (e : Option E) → P s
      → P (notify current adopt ls latest s e).0
  unfolding notify
  notify-keeps P latest [] keeps s e h = h
  notify-keeps P latest (l ∷ ls) keeps s e h =
      elim (Bool-cases (l.is_updated s (current s) latest)) [
        | inl changed ↦ rw changed (
            notify-keeps P latest ls keeps.1 (l.on_update s latest).0 (l.on_update s latest).1
              (keeps.0 s h))
        | inr same ↦ rw same (notify-keeps P latest ls keeps.1 s e h)
      ]

  -- It holds after the refresh, if adopting keeps it too.
  pub update_config-keeps {κ} :
      (P : S → Type κ) (latest : Config) (ls : List (ConfigListener S E))
      → All (λ (l : ConfigListener S E). (s : S) → P s → P (l.on_update s latest).0) ls
      → ((s : S) → P s → P (adopt s latest))
      → (s : S) → P s
      → P (update_config current adopt ls latest s)
  unfolding update_config
  update_config-keeps P latest ls keeps adopts s h =
      go (notify current adopt ls latest s none) (notify-keeps P latest ls keeps s none h)
    where
      go : (r : S × Option E) → P r.0 → P (adopt_unless current adopt latest r)
      go (t, none) p = adopts t p
      go (t, some e) p = p

  -- A listener that sees no change is passed over.
  pub update_config-skip :
      (latest : Config) (l : ConfigListener S E) (ls : List (ConfigListener S E)) (s : S)
      → l.is_updated s (current s) latest ≡ false
      → update_config current adopt (l ∷ ls) latest s ≡ update_config current adopt ls latest s
  unfolding update_config notify
  update_config-skip latest l ls s same = rw same refl

  -- If the earlier listeners keep `P`, one of them leads from `P` to `Q`, whether it sees a change or
  -- not, and the later ones keep `Q`, then the loop leads from `P` to `Q`.
  pub notify-establishes {κ} :
      (P Q : S → Type κ) (latest : Config) (l : ConfigListener S E)
      (front back : List (ConfigListener S E))
      → All (λ (k : ConfigListener S E). (s : S) → P s → P (k.on_update s latest).0) front
      → ((s : S) → P s → l.is_updated s (current s) latest ≡ true → Q (l.on_update s latest).0)
      → ((s : S) → P s → l.is_updated s (current s) latest ≡ false → Q s)
      → All (λ (k : ConfigListener S E). (s : S) → Q s → Q (k.on_update s latest).0) back
      → (s : S) (e : Option E) → P s
      → Q (notify current adopt (front ++ l ∷ back) latest s e).0
  unfolding notify
  notify-establishes P Q latest l [] back keeps changed same later s e h =
      elim (Bool-cases (l.is_updated s (current s) latest)) [
        | inl seen ↦ rw seen (
            notify-keeps Q latest back later (l.on_update s latest).0 (l.on_update s latest).1
              (changed s h seen))
        | inr unseen ↦ rw unseen (notify-keeps Q latest back later s e (same s h unseen))
      ]
  notify-establishes P Q latest l (k ∷ front) back keeps changed same later s e h =
      elim (Bool-cases (k.is_updated s (current s) latest)) [
        | inl seen ↦ rw seen (
            notify-establishes P Q latest l front back keeps.1 changed same later
              (k.on_update s latest).0 (k.on_update s latest).1 (keeps.0 s h))
        | inr unseen ↦
            rw unseen (notify-establishes P Q latest l front back keeps.1 changed same later s e h)
      ]

  -- What holds after the loop holds after the refresh, if adopting keeps it.
  pub update_config-after {κ} :
      (Q : S → Type κ) (latest : Config) (ls : List (ConfigListener S E)) (s : S)
      → ((t : S) → Q t → Q (adopt t latest))
      → Q (notify current adopt ls latest s none).0
      → Q (update_config current adopt ls latest s)
  unfolding update_config
  update_config-after Q latest ls s adopts h = go (notify current adopt ls latest s none) h
    where
      go : (r : S × Option E) → Q r.0 → Q (adopt_unless current adopt latest r)
      go (t, none) p = adopts t p
      go (t, some e) p = p
