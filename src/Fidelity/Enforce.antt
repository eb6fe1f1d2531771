-- ===== src/Fidelity/Enforce.antt =====
-- EnforcePolicy and MatchRule of internal/fidelity/policy.go.
use wavicle.Prelude.{
  Bytes, codes, ◌≡◌, refl, ◌≤◌, true, false, some, List, [], ◌∷◌, arith, ◌<◌, ◌⊎◌, inl, inr,
  bytes_eq, ◌≢◌, bytes_beq, split, trim,
}
use wavicle.Fidelity.{
  ObservationMode, mode_deductive, FidelityRule, FidelityPolicy, validated, refused, match_glob,
  match_parts, normalize, first_rule, enforce_policy, default_policy, double_star,
}
use wavicle.Fidelity.Glob.{segment, all_left, match_parts_iff}

-- The rules before the chosen one do not match the path, and it does.
pub data Chosen (path : Bytes) : List FidelityRule → FidelityRule → Type 0 where
  this :
      {r : FidelityRule} (rs : List FidelityRule)
      → match_glob r.pattern_of path ≡ true
      → Chosen path (r ∷ rs) r
  later :
      {q r : FidelityRule} {rs : List FidelityRule}
      → match_glob q.pattern_of path ≡ false
      → Chosen path rs r
      → Chosen path (q ∷ rs) r

first_rule-Chosen :
    (path : Bytes) {rs : List FidelityRule} {r : FidelityRule}
    → Chosen path rs r
    → first_rule path rs ≡ some r
unfolding first_rule
first_rule-Chosen path (this rs h) = ground (arith)
first_rule-Chosen path (later n c) = ground (arith, first_rule-Chosen path c)

-- EnforcePolicy, decided by the first rule that matches the path: a mode no looser than the
-- rule's is validated with the path and mode unchanged, and a looser one is refused with the
-- mode that the rule requires.
enforce_policy_first :
    (path : Bytes) (mode : ObservationMode) (p : FidelityPolicy) {r : FidelityRule}
    → Chosen path p.rules r
    → (mode ≤ r.mode
        → enforce_policy path mode p
          ≡ validated (record { path = path; mode = mode; deadline = 0 }))
      × (r.mode < mode
          → enforce_policy path mode p
            ≡ refused (record { path = path; requested = mode; required = r.mode }))
unfolding enforce_policy
enforce_policy_first path mode p c =
    (λ h. ground (arith, first_rule-Chosen path c), λ h. ground (arith, first_rule-Chosen path c))

abbrev below : Bytes → List Bytes
below area = area ∷ double_star ∷ []

-- A rule for everything below an area matches a path with at least one segment there.
match_glob-below :
    (pat path area s : Bytes) (rest : List Bytes)
    → normalize pat ≡ below area
    → normalize path ≡ area ∷ s ∷ rest
    → area ≢ double_star
    → match_glob pat path ≡ true
unfolding match_glob
match_glob-below pat path area s rest np n d =
    rw (np, n, (match_parts_iff _ _).1 (segment area d (all_left s rest)))

payment_parts : normalize (codes "/payment/**") ≡ below (codes "payment")
unfolding normalize trim split
payment_parts = refl

auth_parts : normalize (codes "/auth/**") ≡ below (codes "auth")
unfolding normalize trim split
auth_parts = refl

auth_not_payment :
    (path s : Bytes) (rest : List Bytes)
    → normalize path ≡ codes "auth" ∷ s ∷ rest
    → match_glob (codes "/payment/**") path ≡ false
unfolding match_glob match_parts bytes_beq
auth_not_payment path s rest n = rw (payment_parts, n)

abbrev ProtectedArea : Bytes → Type 0
ProtectedArea area = (area ≡ codes "payment") ⊎ (area ≡ codes "auth")

deductive_rule :
    (path area s : Bytes) (rest : List Bytes)
    → ProtectedArea area
    → normalize path ≡ area ∷ s ∷ rest
    → (r : FidelityRule) × Chosen path default_policy.rules r × (r.mode ≡ mode_deductive)
unfolding default_policy
deductive_rule path area s rest (inl e) n =
    (_, this _ (match_glob-below _ path _ s rest payment_parts (rw e at n) (λ q. cc q)), refl)
deductive_rule path area s rest (inr e) n =
    let n' : normalize path ≡ codes "auth" ∷ s ∷ rest = rw e at n in
    (
      _,
      later (auth_not_payment path s rest n')
          (this _ (match_glob-below _ path _ s rest auth_parts n' (λ q. cc q))),
      refl,
    )

-- Under the default policy a query on a path below /payment or /auth (with at least one more
-- segment) is validated, unchanged, in deductive mode, and refused in every other mode.
enforce_policy-protected :
    (path area s : Bytes) (rest : List Bytes) (mode : ObservationMode)
    → (area ≡ codes "payment") ⊎ (area ≡ codes "auth")
    → normalize path ≡ area ∷ s ∷ rest
    → (mode ≡ mode_deductive
        → enforce_policy path mode default_policy
          ≡ validated (record { path = path; mode = mode; deadline = 0 }))
      × (mode ≢ mode_deductive
          → enforce_policy path mode default_policy
            ≡ refused (record { path = path; requested = mode; required = mode_deductive }))
enforce_policy-protected path area s rest mode a n =
    let (r, chosen, deductive) = deductive_rule path area s rest a n in
    let (accepts, refuses) = enforce_policy_first path mode default_policy chosen in
    (λ h. accepts (omega arith), λ h. rw (← deductive) (refuses (omega arith)))
