-- ===== src/Auth/Guard/Socket.antt =====
-- `getTenantIdForSocketToken` (apps/api/src/auth/auth.guard.ts): the restaurant of the token of a
-- websocket. Every exception becomes null.
use bonapp.Base.{
  ℕ, ◌≡◌, true, Option, none, some, List, arith, if◌then◌else◌, ◌==◌, or_else, ok, err, inl, inr,
  Option-cases, Result-cases,
}
use bonapp.Database.{Prisma}
use bonapp.Auth.Guard.{Reader, GuardUser, Identity, verify_token, first_of, may_act}

unfoldable pub get_tenant_id_for_socket_token :
    Prisma → Reader → ℕ → List ℕ → List GuardUser → Option ℕ
get_tenant_id_for_socket_token db rd now token users = elim (verify_token rd now token) [
  | err e ↦ none
  | ok i ↦ elim (first_of i.staff_user_id i.user_id) [
    | none ↦ none
    | some id ↦ elim (db.find_first (may_act id i.tenant_id) users) [
      | none ↦ none
      | some u ↦ if or_else i.session_version 0 == u.session_version then some i.tenant_id else none
    ]
  ]
]

module _ (db : Prisma) (rd : Reader) (now : ℕ) (token : List ℕ) (users : List GuardUser) where
  -- Who joins a restaurant.
  pub record Joined (tenant : ℕ) : Type 0 where
    pub identity : Identity
    pub user : GuardUser
    pub verified : verify_token rd now token ≡ ok identity
    pub named : identity.tenant_id ≡ tenant
    pub acts : may_act user.id tenant user ≡ true
    pub current : or_else identity.session_version 0 ≡ user.session_version

  may_act_self :
      (id tenant : ℕ) (u : GuardUser) → may_act id tenant u ≡ true → may_act u.id tenant u ≡ true
  may_act_self id tenant u h = ground arith

  -- A socket joins a restaurant only with a token of this API that names it, and for a user that is
  -- found there, active and not blocked, with the session version of the token.
  pub get_tenant_id_for_socket_token-Joined :
      (tenant : ℕ)
      → get_tenant_id_for_socket_token db rd now token users ≡ some tenant
      → Joined tenant
  unfolding get_tenant_id_for_socket_token
  get_tenant_id_for_socket_token-Joined tenant h = elim (Result-cases (verify_token rd now token)) [
    | inr (e, bad) ↦ absurd (ground arith)
    | inl (i, good) ↦ elim (Option-cases (first_of i.staff_user_id i.user_id)) [
      | inl nobody ↦ absurd (ground arith)
      | inr (id, somebody) ↦ elim (Option-cases (db.find_first (may_act id i.tenant_id) users)) [
        | inl missing ↦ absurd (ground arith)
        | inr (u, found) ↦ record {
          identity = i;
          user = u;
          verified = good;
          named = ground arith;
          acts = ground (
            arith,
            may_act_self id i.tenant_id u
                (db.find_first_matches (may_act id i.tenant_id) users u found),
          );
          current = ground arith;
        }
      ]
    ]
  ]
