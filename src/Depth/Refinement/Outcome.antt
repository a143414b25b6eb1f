-- ===== src/Depth/Refinement/Outcome.antt =====
-- How a stretch of the walk comes out: it gets through, or it ends with a violation.
use django_graphex.Common.{
  ℕ, suc, ◌+◌, ◌≤◌, ◌≡◌, refl, String, true, Option, none, some, List, [], ◌∷◌, arith, eq_iff, ◌⊎◌,
  inl, inr, ==_iff,
}
use django_graphex.Machine.{
  going, done, Leads, Ends, Leads-jump, Leads-level, Leads-trans, Ends-done, Ends-step, Ends-le,
  Ends-trans,
}
use django_graphex.Graphql.Ast.{Selections, NamedType, Schema, Runtime}
use django_graphex.Cost.Analyzer.{Names}
use django_graphex.Cost.Refinement.Assumptions.{Known, Known-eq}
use django_graphex.Depth.Limits.{Constraint}
use django_graphex.Depth.Walker.{SpreadKey, Frame, Walk, Found, is_clean, step}
use django_graphex.Depth.Reference.{Spreads, or_else}
use django_graphex.Depth.Budget.Agree.{Left}

abbrev pub spread_key : String → NamedType → ℕ → SpreadKey
spread_key name t b = record { name = name; type_name = t.name; budget = some b }

-- A spread that is proven clean holds no violation wherever as much budget is left.
pub record IsProven (schema : Schema) (f : Spreads) (clean : List SpreadKey) : Type 0 where
  pub at_key :
      (name : String) (t : NamedType) (b : ℕ)
      → Known schema t
      → is_clean (spread_key name t b) clean ≡ true
      → (cs : List Constraint) (depth : ℕ) → Left cs depth b
      → f name t cs depth ≡ none

pub IsProven-nil : (schema : Schema) (f : Spreads) → IsProven schema f []
IsProven-nil schema f = record { at_key = λ name t b k e cs depth l. cc e }

abbrev pub Clears : Spreads → String → NamedType → ℕ → Type 0
Clears f name t b = (cs : List Constraint) (depth : ℕ) → Left cs depth b → f name t cs depth ≡ none

same_key :
    (schema : Schema) (f : Spreads) (name n : String) (t u : NamedType) (b c : ℕ)
    → Known schema t
    → Known schema u
    → name ≡ n
    → t.name ≡ u.name
    → b ≡ c
    → Clears f name t b
    → Clears f n u c
same_key schema f name n t u b c kt ku en et eb h cs depth l =
    cc (h cs depth (rw eb l), Known-eq schema t u kt ku et, en)

clean_head :
    (name n : String) (t u : NamedType) (b c : ℕ) (clean : List SpreadKey)
    → is_clean (spread_key n u c) (spread_key name t b ∷ clean) ≡ true
    → ((name ≡ n) × (t.name ≡ u.name) × (b ≡ c)) ⊎ (is_clean (spread_key n u c) clean ≡ true)
clean_head name n t u b c clean e = ground (arith, eq_iff name n, eq_iff t.name u.name, ==_iff b c)

pub IsProven-cons :
    (schema : Schema) (f : Spreads) (clean : List SpreadKey) (name : String) (t : NamedType) (b : ℕ)
    → Known schema t
    → Clears f name t b
    → IsProven schema f clean
    → IsProven schema f (spread_key name t b ∷ clean)
IsProven-cons schema f clean name t b kt h p = record {
  at_key = λ n u c ku e. elim (clean_head name n t u b c clean e) [
    | inl (en, et, eb) ↦ same_key schema f name n t u b c kt ku en et eb h
    | inr e' ↦ p.at_key n u c ku e'
  ];
}

abbrev pub level : Selections → NamedType → ℕ → List Constraint → Option SpreadKey → ℕ → Frame
level s t depth cs key cuts = record {
  selections = s;
  parent_type = t;
  depth = depth;
  constraints = cs;
  key = key;
  cuts_before = cuts;
}

abbrev pub state : Frame → List Frame → List String → List SpreadKey → ℕ → Walk
state top stack active clean cuts = record {
  top = top;
  stack = stack;
  active = active;
  clean_spreads = clean;
  cycle_cuts = cuts;
}

abbrev pub result : Option Constraint → List SpreadKey → ℕ → Found
result c clean cuts = record { reported = c; clean_spreads = clean; cycle_cuts = cuts }

module _ (rt : Runtime) (names : Names) (f : Spreads) (cuts : ℕ) where
  abbrev pub Outcome : ℕ → Walk → (List SpreadKey → Walk) → Option Constraint → Type 0
  Outcome n w w' none =
      (clean : List SpreadKey) × IsProven names.schema f clean
      × Leads (step rt names) n w (w' clean)
  Outcome n w w' (some c) =
      (clean : List SpreadKey) × IsProven names.schema f clean
      × Ends (step rt names) n w (result (some c) clean cuts)

  pub Outcome-jump :
      (n : ℕ) (w : Walk) (w' : List SpreadKey → Walk) (clean : List SpreadKey)
      (r : Option Constraint)
      → 1 ≤ n
      → IsProven names.schema f clean
      → step rt names w ≡ going (w' clean)
      → r ≡ none
      → Outcome n w w' r
  Outcome-jump n w w' clean none pos p e z =
      (clean, p, Leads-jump (step rt names) n w _ _ pos e refl)
  Outcome-jump n w w' clean (some c) pos p e z = absurd (cc z)

  pub Outcome-done :
      (n : ℕ) (w : Walk) (w' : List SpreadKey → Walk) (clean : List SpreadKey)
      (r : Option Constraint) (c : Constraint)
      → 1 ≤ n
      → IsProven names.schema f clean
      → step rt names w ≡ done (result (some c) clean cuts)
      → r ≡ some c
      → Outcome n w w' r
  Outcome-done n w w' clean none c pos p e z = absurd (cc z)
  Outcome-done n w w' clean (some c') c pos p e z =
      (clean, p, rw z (Ends-done (step rt names) n w _ pos e))

  pub Outcome-trans :
      (n m : ℕ) (w : Walk) (w' w'' : List SpreadKey → Walk) (r r' : Option Constraint)
      → Outcome n w w' r
      → ((clean : List SpreadKey) → IsProven names.schema f clean → Outcome m (w' clean) w'' r')
      → Outcome (n + m) w w'' (or_else r r')
  Outcome-trans n m w w' w'' (some c) r' (clean, p, e) h =
      (clean, p, Ends-le (step rt names) n (n + m) w _ (omega arith) e)
  Outcome-trans n m w w' w'' none none (clean, p, l) h =
      let (clean', p', l') = h clean p in (clean', p', Leads-trans (step rt names) n m w _ _ l l')
  Outcome-trans n m w w' w'' none (some c) (clean, p, l) h =
      let (clean', p', e) = h clean p in (clean', p', Ends-trans (step rt names) n m w _ _ l e)

  -- A step in, a level, and, if the level is clean, a step out.
  pub Outcome-level :
      (n : ℕ) (w w₁ : Walk) (w₂ w' : List SpreadKey → Walk) (r r' : Option Constraint)
      → step rt names w ≡ going w₁
      → Outcome n w₁ w₂ r
      → ((clean : List SpreadKey)
          → IsProven names.schema f clean
          → r ≡ none
          → (clean' : List SpreadKey) × IsProven names.schema f clean'
            × (step rt names (w₂ clean) ≡ going (w' clean')))
      → r' ≡ r
      → Outcome (2 + n) w w' r'
  Outcome-level n w w₁ w₂ w' none none e (clean, p, l) h z =
      let (clean', p', out) = h clean p refl in
      (clean', p', Leads-level (step rt names) n w w₁ _ _ _ e l out refl)
  Outcome-level n w w₁ w₂ w' (some c) (some c') e (clean, p, l) h z = (
    clean,
    p,
    rw z (
        Ends-le (step rt names) (suc n) (2 + n) w _ (omega arith)
          (Ends-step (step rt names) n w w₁ _ e l)),
  )
  Outcome-level n w w₁ w₂ w' (some c) none e o h z = absurd (cc z)
  Outcome-level n w w₁ w₂ w' none (some c) e o h z = absurd (cc z)
