-- ===== src/Web/ApiClient/Retry.antt =====
-- A request ends, and is sent twice at most.
use campus_internship.Prelude.{
  ℕ, suc, ◌==◌, ◌≡◌, ◌≢◌, ◌⊎◌, ◌&&◌, leb, ltb, if◌then◌else◌, refl, Bool, true, false, Option, none,
  some, List, [], ◌∷◌, ◌++◌, arith, Bool-cases, inl, inr, Text,
}
use campus_internship.Web.ApiClient.{
  Call, call, refresh_call, Server, Outcome, response, api_error, network_error, is_ok, is_excluded,
  answered, try_refresh, fetch_with_auth,
}

-- a status of success
abbrev pub succeeds : Option ℕ → Bool
succeeds none = false
succeeds (some status) = leb 200 status && ltb status 300

abbrev pub outcome_of : Option ℕ → Outcome
outcome_of none = network_error
outcome_of (some status) = if succeeds (some status) then response status else api_error status

-- The calls of a request after those that were sent before, and what it ends with: the answer, where
-- that is no 401 or the route is one of the session; an error of status 401, where the session was
-- then not refreshed; and where it was, the answer to the same call sent again, whatever that is.
pub data Run (server : Server) (path : Text) (before : List Call)
    : Outcome → List Call → Type 0 where
  once :
      (server before (call path) ≢ some 401) ⊎ (is_excluded path ≡ true)
      → Run server path before (outcome_of (server before (call path))) (before ++ call path ∷ [])
  not_refreshed :
      is_excluded path ≡ false
      → server before (call path) ≡ some 401
      → succeeds (server (before ++ call path ∷ []) refresh_call) ≡ false
      → Run server path before (api_error 401) ((before ++ call path ∷ []) ++ refresh_call ∷ [])
  twice :
      is_excluded path ≡ false
      → server before (call path) ≡ some 401
      → succeeds (server (before ++ call path ∷ []) refresh_call) ≡ true
      → Run server path before
          (outcome_of (server ((before ++ call path ∷ []) ++ refresh_call ∷ []) (call path)))
          (((before ++ call path ∷ []) ++ refresh_call ∷ []) ++ call path ∷ [])

-- a retry ends with the answer
answered-retry :
    (path : Text) (after : List Call) (refreshed : Bool × List Call)
    (retried : Option (Outcome × List Call)) (answer : Option ℕ)
    → answered path true after refreshed retried answer ≡ some (outcome_of answer, after)
answered-retry path after refreshed retried none = refl
answered-retry path after refreshed retried (some status) = ground arith

-- what a request may end with
abbrev pub Ends : Server → Text → List Call → Option (Outcome × List Call) → Type 0
Ends server path sent r =
    (o : Outcome) × ((calls : List Call) × ((r ≡ some (o, calls)) × Run server path sent o calls))

module _ (server : Server) (path : Text) (sent : List Call) where
  abbrev after : List Call
  after = sent ++ call path ∷ []

  abbrev after_refresh : List Call
  after_refresh = after ++ refresh_call ∷ []

  -- the result for an answer to the first call and one to the refresh
  abbrev result : Option ℕ → Bool → Option (Outcome × List Call)
  result answer refreshed =
      answered path false after (refreshed, after_refresh)
        (some (outcome_of (server after_refresh (call path)), after_refresh ++ call path ∷ []))
        answer

  sent_once :
      (answer : Option ℕ) (refreshed : Bool)
      → server sent (call path) ≡ answer
      → (answer ≢ some 401) ⊎ (is_excluded path ≡ true)
      → result answer refreshed ≡ some (outcome_of answer, after)
      → Ends server path sent (result answer refreshed)
  sent_once answer refreshed e why r = (outcome_of answer, (after, (r, rw (← e) (once (rw e why)))))

  answered-Ends :
      (answer : Option ℕ) (refreshed : Bool)
      → server sent (call path) ≡ answer
      → succeeds (server after refresh_call) ≡ refreshed
      → Ends server path sent (result answer refreshed)
  answered-Ends none refreshed e f = sent_once none refreshed e (inl (λ h. cc h)) refl
  answered-Ends (some status) refreshed e f = elim (Bool-cases (is_excluded path)) [
    | inl x ↦ sent_once (some status) refreshed e (inr x) (ground arith)
    | inr x ↦ elim (Bool-cases (status == 401)) [
      | inr n ↦ sent_once (some status) refreshed e (inl (λ h. ground arith)) (ground arith)
      | inl y ↦ refused status refreshed x (ground arith) e f
    ]
  ]
    where
      refused :
          (s : ℕ) (r : Bool)
          → is_excluded path ≡ false
          → s ≡ 401
          → server sent (call path) ≡ some s
          → succeeds (server after refresh_call) ≡ r
          → Ends server path sent (result (some s) r)
      refused s true x y k l = (_, (_, (ground arith, twice x (rw (k, y)) l)))
      refused s false x y k l = (_, (_, (ground arith, not_refreshed x (rw (k, y)) l)))

-- Whatever the server answers, a request ends after two calls of its own code at most: it is sent once,
-- or, where the route is not one of the session, the answer was a 401 and the session was then
-- refreshed, twice; the session is refreshed once at most; and the request ends with the last answer
-- to it, a failure of the network included.
pub fetch_with_auth-Ends :
    (server : Server) (path : Text) (fuel : ℕ) (sent : List Call)
    → Ends server path sent (fetch_with_auth server (suc (suc fuel)) path false sent)
unfolding fetch_with_auth try_refresh
fetch_with_auth-Ends server path fuel sent =
    let after = sent ++ call path ∷ [] in
    let refreshed = try_refresh server after in
    rw
      (answered-retry path (refreshed.1 ++ call path ∷ [])
        (try_refresh server (refreshed.1 ++ call path ∷ []))
        (fetch_with_auth server fuel path true
          (try_refresh server (refreshed.1 ++ call path ∷ [])).1)
        (server refreshed.1 (call path)))
      (answered-Ends server path sent (server sent (call path)) refreshed.0 refl
        (refreshed_lem (server after refresh_call)))
  where
    refreshed_lem :
        (answer : Option ℕ)
        → succeeds answer ≡ elim answer [ none ↦ false | some status ↦ is_ok status ]
    refreshed_lem none = refl
    refreshed_lem (some status) = refl
