-- ===== src/Accounts/Role.antt =====
-- `UserProfile` of web/accounts/models.py: the roles and their order.
use sensor_server.Prelude.{
  ℕ, String, Bool, true, false, ℤ, pos, negsuc, leb_ℤ, Option, none, some, List, [], ◌∷◌,
}
use sensor_server.Value.{Dict, get}

-- ROLE_CHOICES, the keys
abbrev pub role_choices : List String
role_choices = "guest" ∷ "resident" ∷ "admin" ∷ []

-- ROLE_HIERARCHY
abbrev pub role_hierarchy : Dict ℤ
role_hierarchy = ("guest", pos 0) ∷ ("resident", pos 1) ∷ ("admin", pos 2) ∷ []

-- ROLE_HIERARCHY.get(role, default)
unfoldable pub rank : String → ℤ → ℤ
unfolding get
rank role default = elim (get role role_hierarchy) [ none ↦ default | some n ↦ n ]

-- `user` is the primary key of the user; a pending user has no role.
pub record UserProfile : Type 0 where
  pub user : ℕ
  pub role : Option String

-- UserProfile.has_role
unfoldable pub has_role : UserProfile → String → Bool
unfolding rank
has_role p required = elim p.role [
  | none ↦ false
  | some role ↦ leb_ℤ (rank required (pos 99)) (rank role (negsuc 0))
]

-- UserProfile.is_approved
unfoldable pub is_approved_profile : UserProfile → Bool
is_approved_profile p = elim p.role [ none ↦ false | some role ↦ true ]
