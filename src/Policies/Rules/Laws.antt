-- ===== src/Policies/Rules/Laws.antt =====
-- When each of the policies allows, against a description of the condition by membership.
use agent_actum.Base.{
  ℕ, ◌≡◌, refl, ◌⊎◌, if◌then◌else◌, String, text_eq, ◌≤◌, true, false, Option, none, some, List, [],
  ◌∷◌, member, is_empty, In, member-In, In-member, All, arith, inl, inr, Bool-cases, Option-cases,
}
use agent_actum.Model.Enums.{risk_rank, PolicyDecisionType, allow, deny, require_approval}
use agent_actum.Model.Json.{JsonObject, get}
use agent_actum.Model.Exec.{ok, pure, >>=-eq-ok}
use agent_actum.Model.Number.{Number, number_lt}
use agent_actum.Model.Host.{Host}
use agent_actum.Contracts.Models.{ActionIntent, ToolContract}
use agent_actum.Policies.Models.{PolicyDecision}
use agent_actum.Policies.Engine.{decision, make_decision, allow_decision, risk_at_least}
use agent_actum.Policies.Engine.Decisions.{Built, make_decision-Built}
use agent_actum.Policies.Rules.{
  ToolAllowDenyPolicy, tool_allow_deny, outside, RequiredPermissionPolicy, required_permission,
  required, string_set, without, RiskApprovalPolicy, risk_approval, NumericApprovalThresholdPolicy,
  numeric_threshold, number_argument, decide, permit, check_missing, check_permissions,
}

module _ (h : Host) (a : ActionIntent) (c : ToolContract) where
  -- A decision by `decide` has the type and the risk it was asked for.
  decide-Built :
      (ty : PolicyDecisionType) (name reason : String) (t u : ℕ) (d : PolicyDecision)
      → decide h a c ty name reason t ≡ (ok (decision d), u)
      → Built a ty c.risk_level [] d
  unfolding pure
  decide-Built ty name reason t u d e =
      let (x, v, r, q) =
        >>=-eq-ok (make_decision h a ty c.risk_level name reason []) (λ y. pure (decision y)) t u
          e in
      let same : x ≡ d = ground arith in
      rw same at (make_decision-Built h a ty c.risk_level name reason [] t v x r)

  permit-Built :
      (name : String) (t u : ℕ) (d : PolicyDecision)
      → permit h a c name t ≡ (ok (decision d), u)
      → Built a allow c.risk_level [] d
  unfolding allow_decision
  permit-Built name t u d e = decide-Built allow name "Policy allowed the action." t u d e

-- `name` is in the set, if there is one.
abbrev pub Inside : Option (List String) → String → Type 0
Inside none name = Unit
Inside (some tools) name = In name tools

outside-cases :
    (tools : Option (List String)) (name : String)
    → (Inside tools name × (outside tools name ≡ false))
      ⊎ ((¬ Inside tools name) × (outside tools name ≡ true))
outside-cases none name = inl (tt, refl)
outside-cases (some tools) name = elim (Bool-cases (member name tools)) [
  | inl found ↦ inl (member-In name tools found, rw found)
  | inr missing ↦ inr (λ m. cc (missing, In-member name tools m), rw missing)
]

-- The decision allows if `P` holds, and is of type `ty` if it does not.
abbrev pub AllowsIf : Type 0 → PolicyDecisionType → PolicyDecision → Type 0
AllowsIf P ty d = (P × (d.decision_type ≡ allow)) ⊎ ((¬ P) × (d.decision_type ≡ ty))

module _ (h : Host) (a : ActionIntent) (c : ToolContract) (ctx : JsonObject) where
  -- The tool policy allows exactly the tools that are not in the deny list and are in the allow
  -- list, if there is one; it denies the others.
  pub tool_allow_deny-AllowsIf :
      (p : ToolAllowDenyPolicy) (t u : ℕ) (d : PolicyDecision)
      → tool_allow_deny h p a c ctx t ≡ (ok (decision d), u)
      → AllowsIf ((¬ In a.tool_name p.denied_tools) × Inside p.allowed_tools a.tool_name) deny d
  unfolding tool_allow_deny
  tool_allow_deny-AllowsIf p t u d e = elim (Bool-cases (member a.tool_name p.denied_tools)) [
    | inl denied ↦ inr (
      λ q. q.0 (member-In _ _ denied),
      (decide-Built h a c deny _ _ t u d (rw (denied, tool_allow_deny) at e)).type,
    )
    | inr undenied ↦
        let clear : ¬ In a.tool_name p.denied_tools =
          λ m. cc (undenied, In-member a.tool_name p.denied_tools m) in
        elim (outside-cases p.allowed_tools a.tool_name) [
          | inl (within, o) ↦ inl (
            (clear, within),
            (permit-Built h a c _ t u d (rw (undenied, tool_allow_deny, o) at e)).type,
          )
          | inr (beyond, o) ↦ inr (
            λ q. beyond q.1,
            (decide-Built h a c deny _ _ t u d (rw (undenied, tool_allow_deny, o) at e)).type,
          )
        ]
  ]

  -- The risk policy asks for approval exactly when the contract's risk is at or above its floor,
  -- and allows otherwise.
  pub risk_approval-AllowsIf :
      (p : RiskApprovalPolicy) (t u : ℕ) (d : PolicyDecision)
      → risk_approval h p a c ctx t ≡ (ok (decision d), u)
      → AllowsIf (¬ (risk_rank p.minimum_risk ≤ risk_rank c.risk_level)) require_approval d
  unfolding risk_approval
  risk_approval-AllowsIf p t u d e = elim (Bool-cases (risk_at_least c.risk_level p.minimum_risk)) [
    | inl reached ↦ inr (
      λ q. q (ground arith),
      (decide-Built h a c require_approval _ _ t u d (rw (reached, risk_approval) at e)).type,
    )
    | inr below ↦
        inl (ground arith, (permit-Built h a c _ t u d (rw (below, risk_approval) at e)).type)
  ]

nothing_missing :
    (wanted granted : List String)
    → is_empty (without wanted granted) ≡ true
    → All (λ s. In s granted) wanted
nothing_missing [] granted e = tt
nothing_missing (s ∷ rest) granted e = elim (Bool-cases (member s granted)) [
  | inl found ↦ (member-In s granted found, nothing_missing rest granted (rw found at e))
  | inr missing ↦ cc (rw missing at e)
]

missing_none :
    (wanted granted : List String)
    → All (λ s. In s granted) wanted
    → is_empty (without wanted granted) ≡ true
missing_none [] granted q = refl
missing_none (s ∷ rest) granted q = rw (In-member s granted q.0) (missing_none rest granted q.1)

-- The context lists every wanted permission, or none is wanted.
abbrev pub Holds : List String → Option (List String) → Type 0
Holds [] listed = Unit
Holds (s ∷ rest) none = ⊥
Holds (s ∷ rest) (some granted) = All (λ x. In x granted) (s ∷ rest)

module _ (h : Host) (a : ActionIntent) (c : ToolContract) where
  check_missing-AllowsIf :
      (s : String) (rest granted : List String) (t u : ℕ) (d : PolicyDecision)
      → check_missing h a c (without (s ∷ rest) granted) t ≡ (ok (decision d), u)
      → AllowsIf (Holds (s ∷ rest) (some granted)) deny d
  check_missing-AllowsIf s rest granted t u d e =
      elim (Bool-cases (is_empty (without (s ∷ rest) granted))) [
        | inl complete ↦ inl (
          nothing_missing (s ∷ rest) granted complete,
          (permit-Built h a c _ t u d (rw complete at e)).type,
        )
        | inr lacking ↦ inr (
          λ q. cc (lacking, missing_none (s ∷ rest) granted q),
          (decide-Built h a c deny _ _ t u d (rw lacking at e)).type,
        )
      ]

  check_permissions-AllowsIf :
      (wanted : List String) (listed : Option (List String)) (t u : ℕ) (d : PolicyDecision)
      → (if is_empty wanted
          then permit h a c "required_permission" t
          else check_permissions h a c wanted listed t)
        ≡ (ok (decision d), u)
      → AllowsIf (Holds wanted listed) deny d
  check_permissions-AllowsIf [] listed t u d e = inl (tt, (permit-Built h a c _ t u d e).type)
  check_permissions-AllowsIf (s ∷ rest) none t u d e =
      inr (λ q. q, (decide-Built h a c deny _ _ t u d e).type)
  check_permissions-AllowsIf (s ∷ rest) (some granted) t u d e =
      check_missing-AllowsIf s rest granted t u d e

module _ (h : Host) (a : ActionIntent) (c : ToolContract) (ctx : JsonObject) where
  -- The permission policy allows exactly when no permission is required for the tool, or the
  -- trusted context's permissions are a list of texts that holds every required one; it denies
  -- otherwise.
  pub required_permission-AllowsIf :
      (p : RequiredPermissionPolicy) (t u : ℕ) (d : PolicyDecision)
      → required_permission h p a c ctx t ≡ (ok (decision d), u)
      → AllowsIf (Holds (required p a.tool_name) (string_set (get "permissions" ctx))) deny d
  unfolding required_permission
  required_permission-AllowsIf p t u d e =
      check_permissions-AllowsIf h a c (required p a.tool_name) (string_set (get "permissions" ctx))
        t u d e

  -- If the threshold policy allows an action of a tool that it is for, then the argument is a number
  -- and the threshold is not below it.
  pub numeric_threshold_allows :
      (p : NumericApprovalThresholdPolicy) (t u : ℕ) (d : PolicyDecision)
      → numeric_threshold h p a c ctx t ≡ (ok (decision d), u)
      → d.decision_type ≡ allow
      → outside p.tools a.tool_name ≡ false
      → (n : Number) × (number_argument (get p.field a.arguments) ≡ some n)
        × (number_lt (Number.float p.threshold) n ≡ false)
  unfolding numeric_threshold
  numeric_threshold_allows p t u d e al w =
      elim (Option-cases (number_argument (get p.field a.arguments))) [
        | inl absent ↦
            cc (
              al,
              (decide-Built h a c deny _ _ t u d (rw (w, numeric_threshold, absent) at e)).type,
            )
        | inr (n, present) ↦ elim (Bool-cases (number_lt (Number.float p.threshold) n)) [
          | inl above ↦ cc (
            al,
            (decide-Built h a c require_approval _ _ t u d
                (rw (w, numeric_threshold, present, above) at e)).type,
          )
          | inr within ↦ (n, present, within)
        ]
      ]
