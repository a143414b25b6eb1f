-- ===== src/Socket/Quiet.antt =====
-- What holds of a connection whose socket is closed or refused, and that every move keeps it.
use django_graphex.Common.{
  ℕ, Bool, true, false, not, ◌||◌, ◌≡◌, refl, sym, ap, ◌∙◌, subst, inl, inr, Option, none, some,
  List, [], ◌∷◌, Bool-cases, Option-cases, arith,
}
use django_graphex.Socket.Json.{Key}
use django_graphex.Socket.State.{
  Task, Frame, connection_ack, error, Output, accepts, sends, closes, find, Handler, idle, tears,
  Consumer,
}
use django_graphex.Socket.Teardown.{Config}
use django_graphex.Socket.Steps.{Event, is_running, close_with}
use django_graphex.Socket.Registry.{find-all_none}
use django_graphex.Socket.Good.{registered}
use django_graphex.Socket.Definitions.{holds_id, pending, IsGood}
use django_graphex.Socket.Invariant.{Says, nothing, one}
use django_graphex.Socket.Moves.{
  code_of, IsOpen, Move, stays, rests, shuts, leaves, acks, begins, lapses, admits, replies,
  registers, cancels, turns, sweeps, works, speaks, speaks_late,
}

abbrev pub has_closed : List Output → Bool
has_closed [] = false
has_closed (closes code ∷ output) = true
has_closed (accepts ∷ output) = has_closed output
has_closed (sends by frame ∷ output) = has_closed output

abbrev pub is_late : Output → Bool
is_late (sends (some t) (error id errors)) = true
is_late _ = false

-- Behind a close there are only `error` frames of tasks.
abbrev pub IsLast : List Output → Type 0
IsLast [] = Unit
IsLast (o ∷ output) = (has_closed output ≡ true → is_late o ≡ true) × IsLast output

pub record Quiet (s : Consumer) : Type 0 where
  pub stopped : s.closing ≡ true → (s.timer ≡ false) × (is_running s.init_task ≡ false)
  pub refused : s.accepted ≡ false → (s.timer ≡ false) × (is_running s.init_task ≡ false)
  pub closed :
      has_closed s.output ≡ true
      → (code_of s.handler ≡ none) × (s.operations ≡ []) × ((s.closing || not s.accepted) ≡ true)
  pub last : IsLast s.output

IsLast-sends :
    (by : Option ℕ) (frame : Frame) (output : List Output)
    → has_closed output ≡ false
    → IsLast output
    → IsLast (sends by frame ∷ output)
IsLast-sends by frame output e h = (λ c. absurd (cc (c, e)), h)

module _ {S : Type 0} (m : Option ℕ) (config : Config) (e : Event S) (s : Consumer) (q : Quiet s)
    (g : IsGood m s) where
  open_now : IsOpen s → has_closed s.output ≡ false
  open_now (c, a) = elim (Bool-cases (has_closed s.output)) [
    | inl h ↦ absurd (let (x, y, z) = q.closed h in ground (arith, z, c, a))
    | inr h ↦ h
  ]

  unclosed : (k : Key) (t : ℕ) → find k s.operations ≡ some t → has_closed s.output ≡ false
  unclosed k t f = elim (Bool-cases (has_closed s.output)) [
    | inl h ↦ absurd (let (x, y, z) = q.closed h in ground (arith, y, f))
    | inr h ↦ h
  ]

  active_now :
      (t : ℕ) (task : Task)
      → s.tasks t ≡ some task
      → holds_id task.phase ≡ true
      → has_closed s.output ≡ false
  active_now t task f a = unclosed task.key t (registered g t task f a)

  Says-has_closed :
      (t : ℕ) (o : List Output) → Says t s.output o → has_closed o ≡ has_closed s.output
  Says-has_closed t o (nothing f) = ap has_closed f
  Says-has_closed t o (one frame f) = ap has_closed f

  Says-IsLast :
      (t : ℕ) (o : List Output) → Says t s.output o → has_closed s.output ≡ false → IsLast o
  Says-IsLast t o (nothing f) h = rw f q.last
  Says-IsLast t o (one frame f) h = rw f (IsLast-sends (some t) frame s.output h q.last)

  -- The last operation is gone when the teardown sweeps.
  swept : (code : Option ℕ) → s.handler ≡ tears [] code → (s.operations ≡ []) × (s.closing ≡ true)
  swept code h =
      let c : s.closing ≡ true = elim (Bool-cases s.closing) [
        | inl c ↦ c
        | inr c ↦ absurd (ground (arith, g.at_rest c))
      ] in
      (
        find-all_none s.operations (λ k. elim (Option-cases (find k s.operations)) [
          | inl f ↦ f
          | inr (t, f) ↦
              absurd (cc (subst (λ (x : Handler). pending k x ≡ true) h (g.torn c k t f)))
        ]),
        c,
      )

  Quiet-sweeps :
      (code : Option ℕ)
      → s.handler ≡ tears [] code
      → Quiet (close_with code (record s { sources = []; handler = idle }))
  Quiet-sweeps none h =
      let (ops, c) = swept none h in
      record {
        stopped = q.stopped;
        refused = q.refused;
        closed = λ f. (refl, ops, rw c refl);
        last = q.last;
      }
  Quiet-sweeps (some code) h =
      let (ops, c) = swept (some code) h in
      record {
        stopped = q.stopped;
        refused = q.refused;
        closed = λ f. (refl, ops, rw c refl);
        last = (λ f. absurd (let (x, y, z) = q.closed f in ground (arith, x, h)), q.last);
      }

  pub Move-Quiet : (x : Consumer) → Move config e s x → Quiet x
  Move-Quiet x (stays f) = subst Quiet (sym f) q
  Move-Quiet x (rests f) = subst Quiet (sym f) (record {
    stopped = λ c. (refl, (q.stopped c).1);
    refused = λ a. (refl, (q.refused a).1);
    closed = q.closed;
    last = q.last;
  })
  Move-Quiet x (shuts i code r c can f) = subst Quiet (sym f) (record {
    stopped = λ d. (refl, r);
    refused = λ a. (refl, r);
    closed = λ h. absurd (let (y, z, w) = q.closed h in ground (arith, w, c, can, q.refused));
    last = q.last;
  })
  Move-Quiet x (leaves i r f) = subst Quiet (sym f) (record {
    stopped = λ d. (refl, r);
    refused = λ a. (refl, r);
    closed = λ h. (refl, (q.closed h).1, refl);
    last = q.last;
  })
  Move-Quiet x (acks o n f) = subst Quiet (sym f) (record {
    stopped = λ c. absurd (cc (c, o.0));
    refused = λ a. absurd (cc (a, o.1));
    closed = λ h. absurd (cc (h, open_now o));
    last = IsLast-sends none connection_ack s.output (open_now o) q.last;
  })
  Move-Quiet x (begins o f) = subst Quiet (sym f) (record {
    stopped = λ c. absurd (cc (c, o.0));
    refused = λ a. absurd (cc (a, o.1));
    closed = q.closed;
    last = q.last;
  })
  Move-Quiet x (lapses f) = subst Quiet (sym f) (record {
    stopped = λ c. ((q.stopped c).0, refl);
    refused = λ a. ((q.refused a).0, refl);
    closed = q.closed;
    last = q.last;
  })
  Move-Quiet x (admits user u r c f) =
      let a : s.accepted ≡ true = elim (Bool-cases s.accepted) [
        | inl a ↦ a
        | inr a ↦ absurd (cc ((q.refused a).1, r))
      ] in
      subst Quiet (sym f) (record {
        stopped = λ d. absurd (cc (d, c));
        refused = λ b. absurd (cc (a, b));
        closed = λ h. absurd (cc (h, open_now (c, a)));
        last = IsLast-sends none connection_ack s.output (open_now (c, a)) q.last;
      })
  Move-Quiet x (replies frame o f) = subst Quiet (sym f) (record {
    stopped = q.stopped;
    refused = q.refused;
    closed = q.closed;
    last = IsLast-sends none frame s.output (open_now o) q.last;
  })
  Move-Quiet x (registers k id payload o a n f) = subst Quiet (sym f) (record {
    stopped = q.stopped;
    refused = q.refused;
    closed = λ h. absurd (cc (h, open_now o));
    last = q.last;
  })
  Move-Quiet x (cancels k t h o k_t same says f) = subst Quiet (sym f) (record {
    stopped = q.stopped;
    refused = q.refused;
    closed = λ c. absurd (cc (c, Says-has_closed t o says, unclosed k t k_t));
    last = Says-IsLast t o says (unclosed k t k_t);
  })
  Move-Quiet x (turns h same f) = subst Quiet (sym f) (record {
    stopped = q.stopped;
    refused = q.refused;
    closed = λ c. let (y, z, w) = q.closed c in (same ∙ y, z, w);
    last = q.last;
  })
  Move-Quiet x (sweeps code h f) = subst Quiet (sym f) (Quiet-sweeps code h)
  Move-Quiet x (works t task v ops sources o there a left says f) = subst Quiet (sym f) (record {
    stopped = q.stopped;
    refused = q.refused;
    closed = λ c. absurd (cc (c, Says-has_closed t o says, active_now t task there a));
    last = Says-IsLast t o says (active_now t task there a);
  })
  Move-Quiet x (speaks t task frame there a f) = subst Quiet (sym f) (record {
    stopped = q.stopped;
    refused = q.refused;
    closed = q.closed;
    last = IsLast-sends (some t) frame s.output (active_now t task there a) q.last;
  })
  Move-Quiet x (speaks_late t id errors f) = subst Quiet (sym f) (record {
    stopped = q.stopped;
    refused = q.refused;
    closed = q.closed;
    last = (λ c. refl, q.last);
  })
