-- ===== src/Actions/Policy/Rules.antt =====
-- What the policy permits, said without the ladder.
use agents_reality_layer.Prelude.{
  string_eq, String, true, false, none, some, ◌≡◌, ◌≢◌, ◌↔◌, ◌⊎◌, inl, inr, refl, any, ==_iff,
  arith, ◌==◌,
}
use agents_reality_layer.Json.{Platform}
use agents_reality_layer.Actions.Models.{
  ActionType-discrete, ActionType, cancel_order, hold_order, update_shipping_address, ActionStatus,
  denied, approval_required, ActionProposal, action_type_eq,
}
use agents_reality_layer.Actions.Policy.{Context, evaluate_policy, exceeds_limit, known_roles}

-- who may ask for an action of the type
abbrev pub MayAsk : ActionType → String → Type 0
MayAsk cancel_order role = role ≡ "operations"
MayAsk _ role = (role ≡ "operations") ⊎ (role ≡ "finance") ⊎ (role ≡ "system")

-- what the workspace and the order allow
abbrev pub IsOpen : Context → Type 0
IsOpen c =
    (c.workspace_mode ≢ "observe_only")
    × (c.has_conflict ≡ false)
    × (exceeds_limit c.order_value c.value_limit ≡ false)

module _ (py : Platform) (id : String) (p : ActionProposal) (role : String) (c : Context)
    (version : String) where
  abbrev verdict : ActionStatus
  verdict = (evaluate_policy py id p role c version).status

  only-IsOpen : verdict ≡ approval_required → IsOpen c
  unfolding evaluate_policy
  only-IsOpen h = (
    λ e. ground (
      arith,
      ==_iff "observer" role,
      ==_iff "operations" role,
      ==_iff "finance" role,
      ==_iff "system" role,
      ==_iff role "observer",
      ==_iff role "operations",
      ==_iff c.workspace_mode "observe_only",
    ),
    ground (
      arith,
      ==_iff "observer" role,
      ==_iff "operations" role,
      ==_iff "finance" role,
      ==_iff "system" role,
      ==_iff role "observer",
      ==_iff role "operations",
      ==_iff c.workspace_mode "observe_only",
    ),
    ground (
      arith,
      ==_iff "observer" role,
      ==_iff "operations" role,
      ==_iff "finance" role,
      ==_iff "system" role,
      ==_iff role "observer",
      ==_iff role "operations",
      ==_iff c.workspace_mode "observe_only",
    ),
  )

  only-MayAsk : (t : ActionType) → p.action_type ≡ t → verdict ≡ approval_required → MayAsk t role
  unfolding evaluate_policy ActionType-discrete
  only-MayAsk cancel_order e h = ground (
    arith,
    ==_iff "observer" role,
    ==_iff "operations" role,
    ==_iff "finance" role,
    ==_iff "system" role,
    ==_iff role "observer",
    ==_iff role "operations",
    ==_iff c.workspace_mode "observe_only",
  )
  only-MayAsk hold_order e h = ground (
    arith,
    ==_iff "observer" role,
    ==_iff "operations" role,
    ==_iff "finance" role,
    ==_iff "system" role,
    ==_iff role "observer",
    ==_iff role "operations",
    ==_iff c.workspace_mode "observe_only",
  )
  only-MayAsk update_shipping_address e h = ground (
    arith,
    ==_iff "observer" role,
    ==_iff "operations" role,
    ==_iff "finance" role,
    ==_iff "system" role,
    ==_iff role "observer",
    ==_iff role "operations",
    ==_iff c.workspace_mode "observe_only",
  )

  -- the ladder for a role that is known and may write
  permitted_as :
      (r : String)
      → (r ≡ "operations") ⊎ (r ≡ "finance") ⊎ (r ≡ "system")
      → (any (λ known. known == r) known_roles ≡ true) × ((r == "observer") ≡ false)
  permitted_as r (inl e) = rw e (refl, refl)
  permitted_as r (inr (inl e)) = rw e (refl, refl)
  permitted_as r (inr (inr e)) = rw e (refl, refl)

  permitted :
      (t : ActionType) → p.action_type ≡ t → MayAsk t role → IsOpen c → verdict ≡ approval_required
  unfolding evaluate_policy ActionType-discrete
  permitted cancel_order e m o = ground (
    arith,
    permitted_as role (inl m),
    ==_iff role "operations",
    ==_iff c.workspace_mode "observe_only",
  )
  permitted hold_order e m o =
      ground (arith, permitted_as role m, ==_iff c.workspace_mode "observe_only")
  permitted update_shipping_address e m o =
      ground (arith, permitted_as role m, ==_iff c.workspace_mode "observe_only")

  -- The policy asks for an approval exactly when the role may ask for an action of that type, the
  -- workspace is not in observe-only mode, the order has no open conflict, and its value is not
  -- above the limit.
  pub evaluate_policy-approval_iff :
      ((evaluate_policy py id p role c version).status ≡ approval_required)
      ↔ (MayAsk p.action_type role × IsOpen c)
  evaluate_policy-approval_iff = (
    λ h. (only-MayAsk p.action_type refl h, only-IsOpen h),
    λ m. permitted p.action_type refl m.0 m.1,
  )

  -- What the policy does not put up for approval it denies; it never approves by itself. The
  -- decision names a role to approve it exactly when it needs one, and that role is operations.
  pub evaluate_policy_denies :
      ((evaluate_policy py id p role c version).status ≡ approval_required)
        × ((evaluate_policy py id p role c version).required_role ≡ some "operations")
      ⊎ ((evaluate_policy py id p role c version).status ≡ denied)
        × ((evaluate_policy py id p role c version).required_role ≡ none)
  unfolding evaluate_policy
  evaluate_policy_denies = ground arith
