-- ===== src/Chatter/Posting.antt =====
-- What `chatter_post` may send, and when.
use mcp_odoo.Prelude.Result.{ok, err, Result-cases}
use mcp_odoo.Prelude.{
  ◌≡◌, ◌⊎◌, Bool, Bool-cases, str_eq, true, Option, none, some, [], ◌∷◌, ◌++◌, arith, eq_iff, refl,
  inl, inr,
}
use mcp_odoo.Json.{Value, Fields}
use mcp_odoo.Write.Approvals.{App, token_of}
use mcp_odoo.Write.Execute.{Deployment, truthy_env}
use mcp_odoo.Resolve.{Resolved}
use mcp_odoo.Chatter.{
  Message, ChatterError, ChatterReply, posted_direct, posted_approved, chatter_token, check_message,
  post_call, post, post_checked, chatter_post,
}

-- the operator allows direct posts, or the caller confirms an approval whose token is that of the
-- message
abbrev pub IsAllowed : Deployment → Message → Option Fields → Bool → Resolved → Type 0
IsAllowed d m approval confirm r =
    (truthy_env d.env "MCP_CHATTER_DIRECT" ≡ true)
    ⊎ ((a : Fields) × (approval ≡ some a)
        × (token_of d.host a ≡ chatter_token d.host m r.instance_name)
        × (confirm ≡ true))

module _ (d : Deployment) (app : App) (m : Message) where
  calls-post :
      (r : Resolved) (reply : Value → ChatterReply)
      → ((post d app m r reply).0.write_approvals ≡ app.write_approvals)
        × ((post d app m r reply).0.calls ≡ app.calls ++ post_call m r ∷ [])
  unfolding post
  calls-post r reply = ground arith

  -- past the checks, the message is posted if it is allowed to be, and nothing happens otherwise
  post_checked_cases :
      (approval : Option Fields) (confirm : Bool) (r : Resolved)
      → ((post_checked d app m approval confirm r).0 ≡ app)
        ⊎ (IsAllowed d m approval confirm r
            × ((reply : Value → ChatterReply) × (post_checked d app m approval confirm r
                  ≡ post d app m r reply)))
  unfolding post_checked
  post_checked_cases none confirm r = elim (Bool-cases (truthy_env d.env "MCP_CHATTER_DIRECT")) [
    | inl direct ↦ inr (inl direct, (posted_direct, rw (post_checked, direct) refl))
    | inr gated ↦ inl (rw (post_checked, gated) refl)
  ]
  post_checked_cases (some a) confirm r =
      elim (Bool-cases (truthy_env d.env "MCP_CHATTER_DIRECT")) [
        | inl direct ↦ inr (inl direct, (posted_direct, rw (post_checked, direct) refl))
        | inr gated ↦
            let given = token_of d.host a in
            let token = chatter_token d.host m r.instance_name in
            elim (Bool-cases (str_eq given token)) [
              | inr other ↦ inl (rw (post_checked, gated, other) refl)
              | inl same ↦ elim (Bool-cases confirm) [
                | inr silent ↦ inl (rw (post_checked, gated, same, silent) refl)
                | inl agreed ↦ inr (
                  inr (a, refl, ground (arith, eq_iff given token), agreed),
                  (posted_approved, rw (post_checked, gated, same, agreed) refl),
                )
              ]
            ]
      ]

module _ (d : Deployment) (app : App) (m : Message) (approval : Option Fields)
    (confirm : Bool) where
  pub chatter_post_refused :
      (e : ChatterError)
      → check_message d m ≡ err e
      → chatter_post d app m approval confirm ≡ (app, err e)
  unfolding chatter_post
  chatter_post_refused e failed = rw (chatter_post, failed) refl

  pub chatter_post_checked :
      (r : Resolved)
      → check_message d m ≡ ok r
      → chatter_post d app m approval confirm ≡ post_checked d app m approval confirm r
  unfolding chatter_post
  chatter_post_checked r passed = rw (chatter_post, passed) refl

  -- A call of `chatter_post` sends nothing, or exactly one `message_post`, of the message whose
  -- arguments pass the checks, on the client they name; and it sends one only in direct mode or if
  -- the caller confirms an approval with the token of this very message. The store of write
  -- approvals stays as it is.
  pub calls-chatter_post :
      ((chatter_post d app m approval confirm).0.write_approvals ≡ app.write_approvals)
      × (((chatter_post d app m approval confirm).0.calls ≡ app.calls)
          ⊎ ((r : Resolved) × (check_message d m ≡ ok r)
              × IsAllowed d m approval confirm r
              × ((chatter_post d app m approval confirm).0.calls
                  ≡ app.calls ++ post_call m r ∷ [])))
  calls-chatter_post = elim (Result-cases (check_message d m)) [
    | inl (e, failed) ↦ rw (chatter_post_refused e failed) (refl, inl refl)
    | inr (r, passed) ↦
        let go = chatter_post_checked r passed in
        elim (post_checked_cases d app m approval confirm r) [
          | inl unchanged ↦ rw (go, unchanged) (refl, inl refl)
          | inr (allowed, (reply, posts)) ↦
              let (stored, sent) = calls-post d app m r reply in
              rw (go, posts) (stored, inr (r, passed, allowed, sent))
        ]
  ]
