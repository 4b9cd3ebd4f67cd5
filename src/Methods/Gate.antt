-- ===== src/Methods/Gate.antt =====
-- What `execute_method` may send, and what its answers say of what was sent.
use mcp_odoo.Prelude.Result.{Result, ok, err, Result-cases}
use mcp_odoo.Prelude.{
  ℕ, String, ◌≡◌, ◌⊎◌, refl, ap, Bool, true, false, Option, Option-cases, some, List, [], ◌∷◌, ◌++◌,
  arith, inl, inr,
}
use mcp_odoo.Json.{Items, Fields}
use mcp_odoo.Write.Host.{Call, returned, raised}
use mcp_odoo.Resolve.{Resolved, resolve_odoo}
use mcp_odoo.RateLimit.{RateError, Tracker, check_rate, rate_limit_mode, rate_key}
use mcp_odoo.Methods.{
  Server, Traffic, MethodReply, MethodError, answered, committed_without_result, check_method,
  search_args, decoding_raised, method_call, call_method, after_count, count_and_call,
  resolve_and_call, connection_failed, occurs_in, none_marshal_marker, execute_method,
}
use mcp_odoo.Methods.Callable.{IsCallable, check_method-IsCallable}

-- the answer is what Odoo returned to the call, or it raised the fault of a None it cannot send
abbrev pub IsAnswer : Server → List Call → Call → MethodReply → Type 0
IsAnswer s calls call (answered value) = s.deployment.respond calls call ≡ returned value
IsAnswer s calls call committed_without_result =
    (message : String) × (s.deployment.respond calls call ≡ raised message)
    × (s.is_fault calls call ≡ true)
    × (occurs_in none_marshal_marker message ≡ true)

module _ (s : Server) (call : Call) where
  calls-call_method : (t : Traffic) → (call_method s t call).0.calls ≡ t.calls ++ call ∷ []
  unfolding call_method
  calls-call_method t = ground arith

  call_method-IsAnswer :
      (t : Traffic) (reply : MethodReply)
      → (call_method s t call).1 ≡ ok reply
      → IsAnswer s t.calls call reply
  unfolding call_method
  call_method-IsAnswer t (answered value) h = ground arith
  call_method-IsAnswer t committed_without_result h = ground arith

  calls-after_count :
      (t : Traffic) (refusal : Result RateError Bool)
      → ((after_count s t call refusal).0.tracker ≡ t.tracker)
        × (((after_count s t call refusal).0.calls ≡ t.calls)
            ⊎ ((refusal ≡ ok false)
                × ((after_count s t call refusal).0.calls ≡ t.calls ++ call ∷ [])))
  unfolding call_method
  calls-after_count t (err e) = (refl, inl refl)
  calls-after_count t (ok true) = (refl, inl refl)
  calls-after_count t (ok false) = (ground arith, inr (refl, calls-call_method t))

  IsAnswer-after_count :
      (t : Traffic) (refusal : Result RateError Bool) (reply : MethodReply)
      → (after_count s t call refusal).1 ≡ ok reply
      → ((after_count s t call refusal).0.calls ≡ t.calls ++ call ∷ [])
        × IsAnswer s t.calls call reply
  IsAnswer-after_count t (err e) reply h = cc h
  IsAnswer-after_count t (ok true) reply h = cc h
  IsAnswer-after_count t (ok false) reply h = (calls-call_method t, call_method-IsAnswer t reply h)

module _ (s : Server) (t : Traffic) (r : Resolved) (call : Call) (now : ℕ) where
  -- the tracker after the call is counted, and whether the call is refused
  abbrev pub counted : Tracker × Result RateError Bool
  counted =
      check_rate (rate_limit_mode (s.deployment.env "ODOO_MCP_RATE_LIMIT_MODE")) t.tracker
        (rate_key r.instance_name "execute_method") now

  -- the call is counted, and it is sent only where it is not refused
  abbrev pub IsCounted : Traffic → Type 0
  IsCounted after =
      (after.tracker ≡ counted.0)
      × ((after.calls ≡ t.calls) ⊎ ((counted.1 ≡ ok false) × (after.calls ≡ t.calls ++ call ∷ [])))

  calls-count_and_call : IsCounted (count_and_call s t r call now).0
  unfolding count_and_call
  calls-count_and_call = calls-after_count s call _ _

  IsAnswer-count_and_call :
      (reply : MethodReply)
      → (count_and_call s t r call now).1 ≡ ok reply
      → ((count_and_call s t r call now).0.calls ≡ t.calls ++ call ∷ [])
        × IsAnswer s t.calls call reply
  unfolding count_and_call
  IsAnswer-count_and_call reply h = IsAnswer-after_count s call _ _ reply h

module _ (s : Server) (t : Traffic) (model method : String) (args : Items) (kwargs : Fields)
    (instance : Option String) (now : ℕ) where
  abbrev result : Traffic × Result MethodError MethodReply
  result = execute_method s t model method args kwargs instance now

  -- the method passes the gates, and the call is the one asked for, at the named instance
  abbrev pub IsAllowed : Resolved → Call → Type 0
  IsAllowed r call =
      IsCallable s model method
      × (resolve_odoo s.deployment instance ≡ ok r)
      × ((args' : Items) × (search_args s.decoders method args ≡ some args')
          × (call ≡ method_call model method args' kwargs r))

  -- a method is refused without effect, or is let through, counted and called
  execute_method_cases :
      ((e : MethodError) × (result ≡ (t, err e)))
      ⊎ ((r : Resolved) × (call : Call) × IsAllowed r call
          × (result ≡ count_and_call s t r call now))
  unfolding execute_method resolve_and_call count_and_call
  execute_method_cases = elim (Result-cases (check_method s model method)) [
    | inl (e, failed) ↦ inl (e, rw (execute_method, failed) refl)
    | inr (_, passed) ↦ elim (Option-cases (search_args s.decoders method args)) [
      | inl broken ↦
          inl (decoding_raised, rw (execute_method, passed, resolve_and_call, broken) refl)
      | inr (args', made) ↦ elim (Result-cases (resolve_odoo s.deployment instance)) [
        | inl (message, failed) ↦ inl (
          connection_failed message,
          rw (execute_method, passed, resolve_and_call, made, failed) refl,
        )
        | inr (r, resolved) ↦ inr (
          r,
          method_call model method args' kwargs r,
          ((check_method-IsCallable s model method).0 passed, resolved, (args', made, refl)),
          rw (execute_method, passed, resolve_and_call, made, resolved) refl,
        )
      ]
    ]
  ]

  -- A direct call changes nothing at all, or its method passes the gates, the call is counted once by
  -- the rate limit of the named instance, and nothing is sent, or the limit does not refuse the call
  -- and exactly that one call is sent to the client of the instance.
  pub calls-execute_method :
      let after = (execute_method s t model method args kwargs instance now).0 in
      (after ≡ t)
      ⊎ ((r : Resolved) × (call : Call) × IsAllowed r call × IsCounted s t r call now after)
  calls-execute_method = elim execute_method_cases [
    | inl (e, same) ↦ inl (ap (λ x. x.0) same)
    | inr (r, call, allowed, same) ↦
        inr (r, call, allowed, rw same (calls-count_and_call s t r call now))
  ]

  -- If a direct call succeeds, exactly that one call was sent, and either the result is what Odoo
  -- returned, or Odoo raised the fault that says that it could not marshal a None.
  pub execute_method-IsAnswer :
      (reply : MethodReply)
      → (execute_method s t model method args kwargs instance now).1 ≡ ok reply
      → (r : Resolved) × (call : Call) × IsAllowed r call
        × ((execute_method s t model method args kwargs instance now).0.calls
            ≡ t.calls ++ call ∷ [])
        × IsAnswer s t.calls call reply
  execute_method-IsAnswer reply h = elim execute_method_cases [
    | inl (e, same) ↦ cc (h, same)
    | inr (r, call, allowed, same) ↦
        let (sent, answer) = IsAnswer-count_and_call s t r call now reply (rw same at h) in
        (r, call, allowed, rw same sent, answer)
  ]
