-- ===== src/Socket/Admission.antt =====
-- Who is acknowledged, and what a client's `complete` touches.
use django_graphex.Common.{
  ℕ, Bool, true, false, ◌&&◌, ◌||◌, ◌≡◌, refl, sym, ◌∙◌, subst, ◌⊎◌, inl, inr, String, Option, none,
  some, List, [], ◌∷◌, str_eq, eq_refl, contains, Bool-cases, if-holds, arith,
}
use django_graphex.Security.Errors.{Formatted, Error}
use django_graphex.Socket.State.{Consumer, fresh}
use django_graphex.Socket.Startup.{Core}
use django_graphex.Socket.Teardown.{Config, connect}
use django_graphex.Socket.Steps.{Event, authenticates, close_with, step, run, connection}
use django_graphex.Socket.Definitions.{IsGood}
use django_graphex.Socket.Moves.{
  Move, stays, rests, shuts, leaves, acks, begins, lapses, admits, replies, registers, cancels,
  turns, sweeps, works, speaks, speaks_late,
}
use django_graphex.Socket.Relation.{step-Move}
use django_graphex.Socket.Runs.{step-Good, fresh-Good}

-- The callback answered with this user, authenticated.
abbrev pub answers : {S : Type 0} → String → Event S → Bool
answers user (authenticates (some (u, is_authenticated))) = is_authenticated && str_eq u user
answers user other = false

abbrev pub answered : {S : Type 0} → String → List (Event S) → Bool
answered user [] = false
answered user (e ∷ events) = answers user e || answered user events

-- A step leaves the acknowledgement and the user alone, or brings the callback's answer.
abbrev Keeps : {S : Type 0} → Event S → Consumer → Consumer → Type 0
Keeps e s x =
    ((x.acked ≡ s.acked) × (x.user ≡ s.user)) ⊎ ((x.acked ≡ true) × (answers x.user e ≡ true))

module _ {S : Type 0} (config : Config) (callback : config.on_connect ≡ true) (e : Event S)
    (s : Consumer) where
  same : (x y : Consumer) → x ≡ y → (y.acked ≡ s.acked) × (y.user ≡ s.user) → Keeps e s x
  same x y f h = subst (Keeps e s) (sym f) (inl h)

  close_with-same :
      (code : Option ℕ) (y : Consumer)
      → (y.acked ≡ s.acked) × (y.user ≡ s.user)
      → let x = close_with code y in (x.acked ≡ s.acked) × (x.user ≡ s.user)
  close_with-same none y h = h
  close_with-same (some code) y h = h

  Move-Keeps : (x : Consumer) → Move config e s x → Keeps e s x
  Move-Keeps x (stays f) = same x _ f (refl, refl)
  Move-Keeps x (rests f) = same x _ f (refl, refl)
  Move-Keeps x (shuts i code r c can f) = same x _ f (refl, refl)
  Move-Keeps x (leaves i r f) = same x _ f (refl, refl)
  Move-Keeps x (acks o n f) = absurd (cc (n, callback))
  Move-Keeps x (begins o f) = same x _ f (refl, refl)
  Move-Keeps x (lapses f) = same x _ f (refl, refl)
  Move-Keeps x (admits user a r c f) = subst (Keeps e s) (sym f) (inr (refl, rw a (eq_refl user)))
  Move-Keeps x (replies frame o f) = same x _ f (refl, refl)
  Move-Keeps x (registers k id payload o a n f) = same x _ f (refl, refl)
  Move-Keeps x (cancels k t h o k_t p says f) = same x _ f (refl, refl)
  Move-Keeps x (turns h p f) = same x _ f (refl, refl)
  Move-Keeps x (sweeps code h f) = same x _ f (close_with-same code _ (refl, refl))
  Move-Keeps x (works t task v ops sources o there a left says f) = same x _ f (refl, refl)
  Move-Keeps x (speaks t task frame there a f) = same x _ f (refl, refl)
  Move-Keeps x (speaks_late t id errors f) = same x _ f (refl, refl)

module _ {D S X : Type 0} (core : Core D S X) (format : Error → Formatted) (config : Config)
    (callback : config.on_connect ≡ true) where
  run-answered :
      (events : List (Event S)) (s : Consumer)
      → IsGood config.max_subscriptions s
      → let x = run core format config events s in
        x.acked ≡ true → ((s.acked ≡ true) × (x.user ≡ s.user)) ⊎ (answered x.user events ≡ true)
  unfolding run
  run-answered [] s g a = inl (a, refl)
  run-answered (e ∷ events) s g a =
      let s' = step core format config e s in
      let g' = step-Good core format config config.max_subscriptions refl e s g in
      let m = step-Move core format config config.max_subscriptions e s g in
      elim (run-answered events s' g' a) [
        | inr h ↦ inr (ground (arith, h))
        | inl (b, u) ↦ (elim (Move-Keeps config callback e s s' m) [
          | inl (c, v) ↦ inl (sym c ∙ b, u ∙ v)
          | inr (c, h) ↦ inr (rw u (ground (arith, h)))
        ])
      ]

  -- Where `on_connect` is given, a connection that is acknowledged serves a user that the callback
  -- has answered with as authenticated.
  pub connection-authenticated :
      (user : String) (subprotocols : List String) (events : List (Event S))
      → let c = connection core format config user subprotocols events in
        c.acked ≡ true → answered c.user events ≡ true
  unfolding connection connect
  connection-authenticated user subprotocols events a =
      elim (run-answered events (connect subprotocols (fresh user))
        (if-holds (IsGood config.max_subscriptions) (contains "graphql-transport-ws" subprotocols) _
          _ (λ f. fresh-Good core format config config.max_subscriptions refl user)
          (λ f. fresh-Good core format config config.max_subscriptions refl user))
        a) [
          | inr h ↦ h
          | inl (b, u) ↦ absurd (elim (Bool-cases (contains "graphql-transport-ws" subprotocols)) [
            | inl f ↦ ground (arith, b, f)
            | inr f ↦ ground (arith, b, f)
          ])
        ]
