-- ===== src/Operator/Instance/Refresh.antt =====
-- When the status of an instance is written.
use keptn_gitops_operator.Base.{
  ℕ, ◌+◌, ◌≤◌, String, ◌≡◌, refl, ap, ◌∙◌, true, none, some, arith, eq_iff, not_found, failed,
  Reply, value, error, Outcome, returned, ended,
}
use keptn_gitops_operator.Api.{NamespacedName, KeptnInstance}
use keptn_gitops_operator.Cluster.{keptn_instance, now, Env, World, continue, perform}
use keptn_gitops_operator.Operator.Result.{Result, result}
use keptn_gitops_operator.Operator.Utils.{get_keptn_cp_token}
use keptn_gitops_operator.Cluster.Trace.{count, is_status_update, Stores, read_is_stored}
use keptn_gitops_operator.Operator.Instance.{
  with_encrypted, with_token, with_token_of, token_or_empty, encrypt_public_pem, refresh,
  with_internal, with_scheme, with_object, refresh_interval, reconcile,
}

module _ (E : Env) where
  abbrev pub saves : World E → ℕ
  saves w = count is_status_update w.trace

  module _ (S : Stores E keptn_instance) (req : NamespacedName) (i : KeptnInstance) where
    abbrev pub IsEarly : Type 0
    IsEarly = (s : E.State) → (E.respond now s).0 ≤ i.status.last_updated + refresh_interval

    saves-refresh :
        (i' : KeptnInstance) (token : String) (o : Result) (w : World E)
        → IsEarly
        → i'.status.last_updated ≡ i.status.last_updated
        → i'.status.current_token ≡ token
        → saves (refresh E i' token o w).1 ≡ saves w
    unfolding refresh perform
    saves-refresh i' token o w early same agree =
        ground (arith, eq_iff i'.status.current_token token, early w.state)

    saves-encrypted :
        (i' : KeptnInstance) (r : Outcome (Reply String)) (w : World E)
        → IsEarly
        → i'.status.last_updated ≡ i.status.last_updated
        → saves (continue r (with_encrypted E i') w).1 ≡ saves w
    unfolding with_encrypted
    saves-encrypted i' (ended m) w early same = refl
    saves-encrypted i' (returned (error e)) w early same = refl
    saves-encrypted i' (returned (value t)) w early same =
        saves-refresh (with_token E i' t) t _ w early same refl

    saves-encrypt_public_pem :
        (m : String) (w : World E) → saves (encrypt_public_pem E m w).1 ≡ saves w
    unfolding encrypt_public_pem perform
    saves-encrypt_public_pem m w = ground arith

    saves-get_keptn_cp_token :
        (ns : String) (w : World E) → saves (get_keptn_cp_token E ns w).1 ≡ saves w
    unfolding get_keptn_cp_token perform
    saves-get_keptn_cp_token ns w = ground arith

    saves-with_internal :
        (ns : String) (i' : KeptnInstance) (w : World E)
        → IsEarly
        → i'.status.last_updated ≡ i.status.last_updated
        → saves (with_internal E ns i' w).1 ≡ saves w
    unfolding with_internal with_token_of
    saves-with_internal ns i' w early same =
        go (get_keptn_cp_token E ns w).0 (get_keptn_cp_token E ns w).1
        ∙ saves-get_keptn_cp_token ns w
      where
        go :
            (o : Outcome (Reply String)) (w1 : World E)
            → saves (continue o (with_token_of E i') w1).1 ≡ saves w1
        go (ended m) w1 = refl
        go (returned r) w1 =
            saves-encrypted i' (encrypt_public_pem E (token_or_empty r) w1).0
              (encrypt_public_pem E (token_or_empty r) w1).1 early same
            ∙ saves-encrypt_public_pem (token_or_empty r) w1

    saves-with_scheme :
        (ns : String) (i' : KeptnInstance) (w : World E)
        → IsEarly
        → i'.status.last_updated ≡ i.status.last_updated
        → saves (with_scheme E ns i' w).1 ≡ saves w
    unfolding with_scheme
    saves-with_scheme ns i' w early same = ground (
      arith,
      saves-with_internal ns i' w early same,
      saves-refresh (with_token E i' i'.spec.token) i'.spec.token (result true 10 none) w early same
          refl,
    )

    saves-found :
        (r : Reply KeptnInstance) (w : World E)
        → ((i' : KeptnInstance) → r ≡ value i' → i'.status.last_updated ≡ i.status.last_updated)
        → IsEarly
        → saves (with_object E req r w).1 ≡ saves w
    unfolding with_object
    saves-found (error (not_found m)) w h early = refl
    saves-found (error (failed m)) w h early = refl
    saves-found (value i') w h early = go (E.parse_scheme i'.spec.api_url) refl
      where
        go :
            (r : Reply String)
            → E.parse_scheme i'.spec.api_url ≡ r
            → saves (with_object E req (value i') w).1 ≡ saves w
        go (error e) q = ground (arith, q)
        go (value scheme) q =
            rw (q, with_object)
              (saves-with_scheme req.namespace
                (record i' { status = record i'.status { scheme = scheme } }) w early (h i' refl))

    -- On an API server that stores instances as documented, and while the clock is not
    -- past the last save by more than the refresh interval, a run writes no status,
    -- whatever the token and the stored one.
    pub fresh_token_not_saved :
        (w : World E)
        → S.stored w.state req ≡ some i
        → IsEarly
        → saves (reconcile E req w).1 ≡ saves w
    unfolding reconcile perform
    fresh_token_not_saved w here early =
        saves-found _ _
          (λ i' e.
            let same : i' ≡ i = read_is_stored S w.state req i i' here e in
            ap (λ (x : KeptnInstance). x.status.last_updated) same)
          early
