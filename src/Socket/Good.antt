-- ===== src/Socket/Good.antt =====
-- The changes of a connection's parts that keep its invariant.
use django_graphex.Socket.Definitions.{holds_id, serves, feeds, listed, Fits, Good}
use django_graphex.Common.{
  ℕ, suc, ◌≤◌, ◌<◌, Bool, true, false, ◌≡◌, refl, sym, ◌∙◌, inl, inr, Option, none, some, [], ◌∷◌,
  length, ==_iff, Bool-cases, arith,
}
use django_graphex.Socket.Json.{Json, Members, Key, key_eq_refl, key_eq→≡}
use django_graphex.Socket.State.{
  starting, delivering, failed, Task, Registry, find, put, erase, keys, Handler, tears, set,
}
use django_graphex.Socket.Handlers.{is_full}
use django_graphex.Socket.Registry.{
  key-cases, find-erase_same, find-erase_other, length-put, length-erase, Agrees-erase, Agrees-same,
  Agrees-put,
}

pub feeds-serves : (k : Key) (v : Option Task) → feeds k v ≡ true → serves k v ≡ true
feeds-serves k none e = e
feeds-serves k (some task) e = ground arith

same_task : (a b t : ℕ) (o : Option ℕ) → o ≡ some a → o ≡ some b → a ≡ b
same_task a b t o e f = ground arith

Fits-erase :
    (m : Option ℕ) (k : Key) (d : Registry) → Fits m (length d) → Fits m (length (erase k d))
Fits-erase none k d h = tt
Fits-erase (some m) k d h = omega (arith, length-erase k d)

Fits-put :
    (m : Option ℕ) (k : Key) (t : ℕ) (d : Registry)
    → find k d ≡ none
    → is_full m (length d) ≡ false
    → Fits m (length (put k t d))
Fits-put none k t d e h = tt
Fits-put (some m) k t d e h = ground (arith, length-put k t d e)

pub listed-keys : (k : Key) (t : ℕ) (d : Registry) → find k d ≡ some t → listed k (keys d) ≡ true
listed-keys k t [] e = absurd (cc e)
listed-keys k t ((j, u) ∷ d) e = ground (arith, listed-keys k t d)

erase-nil : (k : Key) (d : Registry) → d ≡ [] → erase k d ≡ []
erase-nil k d e = rw e refl

below-set :
    (t : ℕ) (v : Option Task) (tasks : ℕ → Option Task) (created : ℕ)
    → t < created
    → ((n : ℕ) → created ≤ n → tasks n ≡ none)
    → (n : ℕ) → created ≤ n
    → set t v tasks n ≡ none
below-set t v tasks created lt h n le = ground (arith, h n, ==_iff n t)

module _ {m : Option ℕ} {acked closing : Bool} {handler : Handler} {operations sources : Registry}
    {tasks : ℕ → Option Task} {created : ℕ}
    (g : Good m acked closing handler operations sources tasks created) where
  -- A task that is there has a number that was given.
  known : (t : ℕ) (task : Task) → tasks t ≡ some task → t < created
  known t task e = ground (arith, g.below t)

  -- A running task is the only one under its key.
  alone :
      (t : ℕ) (task : Task)
      → tasks t ≡ some task
      → holds_id task.phase ≡ true
      → (n : ℕ) → serves task.key (tasks n) ≡ true
      → n ≡ t
  alone t task e a n s =
      let own : serves task.key (tasks t) ≡ true = rw e (ground (arith, key_eq_refl task.key)) in
      ground (arith, (g.exact task.key t).0 own, (g.exact task.key n).0 s)

  -- The operation of a running task leaves, with its source; what is left of the task is no
  -- running task.
  pub Good-erase :
      (t : ℕ) (task : Task) (v : Option Task)
      → tasks t ≡ some task
      → holds_id task.phase ≡ true
      → ((j : Key) → serves j v ≡ false)
      → Good m acked closing handler
          (erase task.key operations)
          (erase task.key sources)
          (set t v tasks)
          created
  Good-erase t task v e a gone = record {
    unacked = λ n. erase-nil task.key operations (g.unacked n);
    at_rest = g.at_rest;
    exact =
        Agrees-erase serves operations tasks task.key t v g.exact gone
          (λ j s. ground (arith, key_eq→≡ task.key j)) (alone t task e a);
    sourced =
        Agrees-erase feeds sources tasks task.key t v g.sourced
          (λ j. ground (arith, gone j, feeds-serves j v))
          (λ j s. ground (arith, key_eq→≡ task.key j))
          (λ n s. alone t task e a n (feeds-serves task.key (tasks n) s));
    below = below-set t v tasks created (known t task e) g.below;
    bound = Fits-erase m task.key operations g.bound;
    torn = λ c k u f. (elim (key-cases task.key k) [
      | inl same ↦ absurd (ground (arith, find-erase_same task.key operations))
      | inr other ↦ g.torn c k u (sym (find-erase_other task.key k operations other) ∙ f)
    ]);
  }

  pub registered :
      (t : ℕ) (task : Task)
      → tasks t ≡ some task
      → holds_id task.phase ≡ true
      → find task.key operations ≡ some t
  registered t task e a = (g.exact task.key t).0 (rw e (ground (arith, key_eq_refl task.key)))

  -- A failed task leaves; it has no source.
  pub Good-leave :
      (t : ℕ) (task : Task)
      → tasks t ≡ some task
      → task.phase ≡ failed
      → Good m acked closing handler (erase task.key operations) sources (set t none tasks) created
  Good-leave t task e p =
      let h = Good-erase t task none e (rw p refl) (λ j. refl) in
      record {
        unacked = h.unacked;
        at_rest = h.at_rest;
        exact = h.exact;
        sourced = Agrees-same feeds sources tasks t none g.sourced (λ j. rw (e, p) (ground arith));
        below = h.below;
        bound = h.bound;
        torn = h.torn;
      }

  -- A running task goes on without a change of its source.
  pub Good-set :
      (t : ℕ) (task : Task) (v : Option Task)
      → tasks t ≡ some task
      → ((j : Key) → serves j v ≡ serves j (some task))
      → ((j : Key) → feeds j v ≡ feeds j (some task))
      → Good m acked closing handler operations sources (set t v tasks) created
  Good-set t task v e s f = record {
    unacked = g.unacked;
    at_rest = g.at_rest;
    exact = Agrees-same serves operations tasks t v g.exact (λ j. rw (e, s j) refl);
    sourced = Agrees-same feeds sources tasks t v g.sourced (λ j. rw (e, f j) refl);
    below = below-set t v tasks created (known t task e) g.below;
    bound = g.bound;
    torn = g.torn;
  }

  -- A task that has started its source.
  pub Good-source :
      (t : ℕ) (task v : Task)
      → tasks t ≡ some task
      → task.phase ≡ starting
      → v.key ≡ task.key
      → v.phase ≡ delivering
      → Good m acked closing handler operations
          (put task.key t sources)
          (set t (some v) tasks)
          created
  Good-source t task v e p same q = record {
    unacked = g.unacked;
    at_rest = g.at_rest;
    exact = Agrees-same serves operations tasks t (some v) g.exact (λ j. rw (e, p, q, same) refl);
    sourced =
        Agrees-put feeds sources tasks task.key t (some v) g.sourced
          (rw (same, q) (ground (arith, key_eq_refl task.key)))
          (λ j s. ground (arith, key_eq→≡ task.key j)) (λ j. rw (e, p) (ground arith))
          (λ n. elim (Bool-cases (feeds task.key (tasks n))) [
            | inl s ↦ absurd (
                ground (
                  arith,
                  alone t task e (rw p refl) n (feeds-serves task.key (tasks n) s),
                  ==_iff n t,
                ))
            | inr s ↦ s
          ]);
    below = below-set t (some v) tasks created (known t task e) g.below;
    bound = g.bound;
    torn = g.torn;
  }

  -- A new task, under a key that no operation has.
  pub Good-register :
      (k : Key) (id : Json) (payload : Members)
      → acked ≡ true
      → closing ≡ false
      → find k operations ≡ none
      → is_full m (length operations) ≡ false
      → Good m acked closing handler
          (put k created operations)
          sources
          (set created
            (some (record { key = k; id = id; payload = payload; phase = starting }))
            tasks)
          (suc created)
  Good-register k id payload a c free room = record {
    unacked = λ n. absurd (cc (n, a));
    at_rest = g.at_rest;
    exact =
        Agrees-put serves operations tasks k created _ g.exact (ground (arith, key_eq_refl k))
          (λ j s. ground (arith, key_eq→≡ k j)) (λ j. rw (g.below created (omega arith)) refl)
          (λ n. elim (Bool-cases (serves k (tasks n))) [
            | inl s ↦ absurd (ground (arith, (g.exact k n).0 s))
            | inr s ↦ s
          ]);
    sourced =
        Agrees-same feeds sources tasks created _ g.sourced
          (λ j. rw (g.below created (omega arith)) (ground arith));
    below = λ n le. ground (arith, g.below n, ==_iff n created);
    bound = Fits-put m k created operations free room;
    torn = λ d. absurd (cc (c, d));
  }

  -- A close or a disconnect takes down what is registered.
  pub Good-tear :
      (code : Option ℕ)
      → Good m acked true (tears (keys operations) code) operations sources tasks created
  Good-tear code = record {
    unacked = g.unacked;
    at_rest = λ n. absurd (cc n);
    exact = g.exact;
    sourced = g.sourced;
    below = g.below;
    bound = g.bound;
    torn = λ c k t f. listed-keys k t operations f;
  }

  pub Good-ack : closing ≡ false → Good m true closing handler operations sources tasks created
  Good-ack c = record {
    unacked = λ n. absurd (cc n);
    at_rest = g.at_rest;
    exact = g.exact;
    sourced = g.sourced;
    below = g.below;
    bound = g.bound;
    torn = g.torn;
  }
