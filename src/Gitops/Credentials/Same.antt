-- ===== src/Gitops/Credentials/Same.antt =====
-- gitops-operator reads secrets as keptn-operator does, but for an empty key.
use keptn_gitops_operator.Base.{
  String, ◌≡◌, refl, ap, ◌∙◌, ◌≢◌, inl, inr, false, Option, none, some, List, [], ◌∷◌, arith, ◌==◌,
  eq_iff, Bool-cases,
}
use keptn_gitops_operator.Cluster.{Env}
use keptn_gitops_operator.Operator.Secrets as Keptn
use keptn_gitops_operator.Operator.Secrets.{split_colon}
use keptn_gitops_operator.Gitops.Credentials as Here

module _ (E : Env) where
  same-decrypt_parts :
      (key : String) (parts : List String)
      → Here.decrypt_parts E key parts ≡ Keptn.decrypt_parts E key parts
  unfolding Here.decrypt_parts Keptn.decrypt_parts Here.decrypt_private_pem
      Keptn.decrypt_private_pem
  same-decrypt_parts key [] = refl
  same-decrypt_parts key (a ∷ []) = refl
  same-decrypt_parts key (a ∷ b ∷ l) = refl

  not_empty : (r : Option String) (k : String) → r ≢ some "" → r ≡ some k → (k == "") ≡ false
  not_empty r k h e = elim (Bool-cases (k == "")) [
    | inl q ↦ absurd (h (e ∙ ap some ((eq_iff k "").0 q)))
    | inr q ↦ q
  ]

  -- Unless RSA_PRIVATE_KEY is set to the empty text, decryptSecret of gitops-operator gives
  -- for every secret what DecryptSecret of keptn-operator gives.
  pub same-decrypt_secret :
      (secret : String)
      → E.lookup_env "RSA_PRIVATE_KEY" ≢ some ""
      → Here.decrypt_secret E secret ≡ Keptn.decrypt_secret E secret
  unfolding Here.decrypt_secret Keptn.decrypt_secret Here.decrypt_split Here.with_pem
  same-decrypt_secret secret h = go (split_colon secret) (E.lookup_env "RSA_PRIVATE_KEY") refl refl
    where
      go :
          (l : List String) (r : Option String)
          → split_colon secret ≡ l
          → E.lookup_env "RSA_PRIVATE_KEY" ≡ r
          → Here.decrypt_secret E secret ≡ Keptn.decrypt_secret E secret
      go [] r s e = ground (arith, s)
      go (a ∷ l) none s e = ground (arith, s, e)
      go (a ∷ l) (some k) s e = ground (
        arith,
        s,
        e,
        not_empty (E.lookup_env "RSA_PRIVATE_KEY") k h e,
        same-decrypt_parts k (a ∷ l),
      )
