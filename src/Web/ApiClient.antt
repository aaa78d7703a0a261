-- ===== src/Web/ApiClient.antt =====
-- lib/api-client.ts: a request, and its one retry after the session was refreshed.
pub mod Retry
use campus_internship.Prelude.{
  ℕ, zero, suc, ◌==◌, Bool, true, false, not, ◌&&◌, any, Option, none, some, List, [], ◌∷◌, ◌++◌,
  if◌then◌else◌, leb, ltb, Text, text, text_eq,
}

-- what is sent to the API: a request at a path, or the refresh of the session
pub data Call : Type 0 where
  call : Text → Call
  refresh_call : Call

-- A server answers a call by a status, in view of the calls that it received before; none is a
-- failure of the network.
abbrev pub Server : Type 0
Server = List Call → Call → Option ℕ

-- what `fetchWithAuth` ends with: a response, an `ApiError`, or a failure of the network
pub data Outcome : Type 0 where
  response : ℕ → Outcome
  api_error : ℕ → Outcome
  network_error : Outcome

-- `AUTH_ENDPOINTS_EXCLUDED_FROM_RETRY`
unfoldable pub is_excluded : Text → Bool
is_excluded path =
    any (text_eq path) (text "/auth/login" ∷ text "/auth/signup" ∷ text "/auth/refresh" ∷ [])

-- `response.ok`
abbrev pub is_ok : ℕ → Bool
is_ok status = leb 200 status && ltb status 300

abbrev pub settle : ℕ → Outcome
settle status = if is_ok status then response status else api_error status

-- what comes after the answer: `after` are the calls sent so far, `refreshed` what `tryRefresh` makes
-- of them, and `retried` what the retry ends with
abbrev pub answered :
    Text
    → Bool
    → List Call
    → Bool × List Call
    → Option (Outcome × List Call)
    → Option ℕ
    → Option (Outcome × List Call)
answered path is_retry after refreshed retried none = some (network_error, after)
answered path is_retry after refreshed retried (some status) =
    if (status == 401) && not is_retry && not (is_excluded path)
    then (if refreshed.0 then retried else some (settle status, refreshed.1))
    else some (settle status, after)

module _ (server : Server) where
  -- `tryRefresh`
  unfoldable pub try_refresh : List Call → Bool × List Call
  try_refresh sent = (
    elim (server sent refresh_call) [ none ↦ false | some status ↦ is_ok status ],
    sent ++ refresh_call ∷ [],
  )

  -- `fetchWithAuth`, on fuel for its own calls, with the calls that were sent
  unfoldable pub fetch_with_auth : ℕ → Text → Bool → List Call → Option (Outcome × List Call)
  fetch_with_auth zero path is_retry sent = none
  fetch_with_auth (suc fuel) path is_retry sent =
      let after = sent ++ call path ∷ [] in
      let refreshed = try_refresh after in
      let retried = fetch_with_auth fuel path true refreshed.1 in
      answered path is_retry after refreshed retried (server sent (call path))
