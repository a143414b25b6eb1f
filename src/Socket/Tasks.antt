-- ===== src/Socket/Tasks.antt =====
-- The pieces of a task, and of a teardown, keep the invariant of a connection.
use django_graphex.Common.{
  ℕ, true, false, ◌≡◌, refl, ap, ◌∙◌, subst, inl, inr, Option, none, some, List, [], ◌∷◌,
  Bool-cases, ==_iff, arith,
}
use django_graphex.Security.Errors.{Formatted, Error}
use django_graphex.Socket.Json.{Key, key_eq, key_eq→≡}
use django_graphex.Socket.State.{
  Phase, starting, delivering, draining, failed, cleanup_failed, Task, find, Handler, idle, tears,
  Consumer, set,
}
use django_graphex.Socket.Teardown.{cancel_operation}
use django_graphex.Socket.Steps.{
  deliver, break, end_loop, raise_late, finish_failed, finish, ExecutionResult, in_phase, is_task,
  operation_done, close_with, proceed,
}
use django_graphex.Socket.Registry.{find-erase_same}
use django_graphex.Socket.Good.{feeds-serves, Good-erase, Good-set, Good-leave, registered}
use django_graphex.Socket.Definitions.{holds_id, listed, pending, IsGood}
use django_graphex.Socket.Invariant.{cancel_operation-cases, if-Good, cancel_operation-Good}

module _ (format : Error → Formatted) (m : Option ℕ) where
  finish-Good :
      (t : ℕ) (task : Task) (err : Option Error) (s : Consumer)
      → s.tasks t ≡ some task
      → holds_id task.phase ≡ true
      → IsGood m s
      → IsGood m (finish t task err s)
  finish-Good t task none s e a g = Good-erase g t task none e a (λ j. refl)
  finish-Good t task (some x) s e a g = Good-erase g t task _ e a (λ j. ground arith)

  pub deliver-Good :
      (t : ℕ) (result : ExecutionResult) (phase : Phase) (task : Task) (s : Consumer)
      → IsGood m s
      → IsGood m (deliver format t result phase task s)
  deliver-Good t result starting task s g = g
  deliver-Good t result delivering task s g = g
  deliver-Good t result draining task s g = g
  deliver-Good t result failed task s g = g
  deliver-Good t result (cleanup_failed x) task s g = g

  pub break-Good :
      (t : ℕ) (exc : Error) (phase : Phase) (task : Task) (s : Consumer)
      → s.tasks t ≡ some task
      → task.phase ≡ phase
      → IsGood m s
      → IsGood m (break format t exc phase task s)
  break-Good t exc starting task s e p g = g
  break-Good t exc delivering task s e p g =
      Good-set g t task (in_phase draining task) e (λ j. rw p refl) (λ j. rw p refl)
  break-Good t exc draining task s e p g = g
  break-Good t exc failed task s e p g = g
  break-Good t exc (cleanup_failed x) task s e p g = g

  pub end_loop-Good :
      (t : ℕ) (err : Option Error) (phase : Phase) (task : Task) (s : Consumer)
      → s.tasks t ≡ some task
      → task.phase ≡ phase
      → IsGood m s
      → IsGood m (end_loop t err phase task s)
  end_loop-Good t err starting task s e p g = g
  end_loop-Good t err delivering task s e p g = finish-Good t task err s e (rw p refl) g
  end_loop-Good t err draining task s e p g = finish-Good t task err s e (rw p refl) g
  end_loop-Good t err failed task s e p g = g
  end_loop-Good t err (cleanup_failed x) task s e p g = g

  pub raise_late-Good :
      (t : ℕ) (phase : Phase) (task : Task) (s : Consumer)
      → s.tasks t ≡ some task
      → task.phase ≡ phase
      → IsGood m s
      → IsGood m (raise_late format t phase task s)
  raise_late-Good t starting task s e p g = g
  raise_late-Good t delivering task s e p g = g
  raise_late-Good t draining task s e p g = g
  raise_late-Good t failed task s e p g = g
  raise_late-Good t (cleanup_failed x) task s e p g =
      Good-set g t task none e (λ j. rw p (ground arith)) (λ j. rw p (ground arith))

  -- A failed task is the registered one, so its callback takes it out.
  pub finish_failed-Good :
      (t : ℕ) (phase : Phase) (task : Task) (s : Consumer)
      → s.tasks t ≡ some task
      → task.phase ≡ phase
      → IsGood m s
      → IsGood m (finish_failed t phase task s)
  unfolding finish_failed operation_done
  finish_failed-Good t starting task s e p g = g
  finish_failed-Good t delivering task s e p g = g
  finish_failed-Good t draining task s e p g = g
  finish_failed-Good t failed task s e p g =
      if-Good m (is_task t (find task.key s.operations)) _ (record s { tasks = set t none s.tasks })
        (λ r. Good-leave g t task e p)
        (λ r. absurd (ground (arith, registered g t task e (rw p refl), ==_iff t t)))
  finish_failed-Good t (cleanup_failed x) task s e p g = g

  cancel_operation-handler :
      (k : Key) (err : Option Error) (s : Consumer)
      → IsGood m s
      → (cancel_operation format k err s).handler ≡ s.handler
  cancel_operation-handler k err s g = elim (cancel_operation-cases m format k err s g) [
    | inl (e, c) ↦ ap (λ (x : Consumer). x.handler) c
    | inr (t, o, says, e, c) ↦ ap (λ (x : Consumer). x.handler) c
  ]

  cancel_operation-gone :
      (k : Key) (err : Option Error) (s : Consumer)
      → IsGood m s
      → find k (cancel_operation format k err s).operations ≡ none
  cancel_operation-gone k err s g = elim (cancel_operation-cases m format k err s g) [
    | inl (e, c) ↦ ap (λ (x : Consumer). find k x.operations) c ∙ e
    | inr (t, o, says, e, c) ↦
        ap (λ (x : Consumer). find k x.operations) c ∙ find-erase_same k s.operations
  ]

  Good-torn :
      (k : Key) (left : List Key) (code : Option ℕ) (s : Consumer)
      → s.handler ≡ tears (k ∷ left) code
      → find k s.operations ≡ none
      → IsGood m s
      → IsGood m (record s { handler = tears left code })
  Good-torn k left code s h e g = record {
    unacked = g.unacked;
    at_rest = λ c. absurd (ground (arith, g.at_rest c));
    exact = g.exact;
    sourced = g.sourced;
    below = g.below;
    bound = g.bound;
    torn = λ c j t f.
        let p : listed j (k ∷ left) ≡ true =
          subst (λ (x : Handler). pending j x ≡ true) h (g.torn c j t f) in
        elim (Bool-cases (key_eq k j)) [
          | inl same ↦ absurd (let eq = key_eq→≡ k j same in ground (arith, e, f))
          | inr other ↦ ground (arith, other, p)
        ];
  }

  -- After the last operation, no source is left to sweep.
  Good-swept :
      (code : Option ℕ) (s : Consumer)
      → s.handler ≡ tears [] code
      → IsGood m s
      → IsGood m (record s { sources = []; handler = idle })
  Good-swept code s h g =
      let closed : s.closing ≡ true = elim (Bool-cases s.closing) [
        | inl c ↦ c
        | inr c ↦ absurd (ground (arith, g.at_rest c))
      ] in
      let none_left : (j : Key) (t : ℕ) → find j s.operations ≡ some t → false ≡ true =
        λ j t f. subst (λ (x : Handler). pending j x ≡ true) h (g.torn closed j t f) in
      record {
        unacked = g.unacked;
        at_rest = λ c. refl;
        exact = g.exact;
        sourced = λ k t. (
          λ f. absurd (cc (none_left k t ((g.exact k t).0 (feeds-serves k (s.tasks t) f)))),
          λ f. absurd (cc f),
        );
        below = g.below;
        bound = g.bound;
        torn = λ c k t f. absurd (cc (none_left k t f));
      }

  close_with-Good : (code : Option ℕ) (s : Consumer) → IsGood m s → IsGood m (close_with code s)
  close_with-Good none s g = g
  close_with-Good (some code) s g = g

  pub proceed-Good :
      (err : Option Error) (handler : Handler) (s : Consumer)
      → s.handler ≡ handler
      → IsGood m s
      → IsGood m (proceed format err handler s)
  unfolding proceed
  proceed-Good err idle s h g = g
  proceed-Good err (tears (k ∷ left) code) s h g =
      let s' = cancel_operation format k err s in
      Good-torn k left code s' (cancel_operation-handler k err s g ∙ h)
        (cancel_operation-gone k err s g) (cancel_operation-Good m format k err s g)
  proceed-Good err (tears [] code) s h g =
      close_with-Good code (record s { sources = []; handler = idle }) (Good-swept code s h g)
