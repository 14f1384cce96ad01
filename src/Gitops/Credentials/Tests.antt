-- ===== src/Gitops/Credentials/Tests.antt =====
-- Both operators read the small cluster's secrets alike.
use keptn_gitops_operator.Base.{◌≡◌, ◌≢◌, some, arith, eq_iff}
use keptn_gitops_operator.Cluster.Sample.{sample_env}
use keptn_gitops_operator.Operator.Secrets as Keptn
use keptn_gitops_operator.Gitops.Credentials as Here
use keptn_gitops_operator.Gitops.Credentials.Same.{same-decrypt_secret}

key_set : sample_env.lookup_env "RSA_PRIVATE_KEY" ≢ some ""
key_set e = ground (arith, (eq_iff "key" "").1)

same-decrypt_secret_example :
    Here.decrypt_secret sample_env "rsa:c2VjcmV0" ≡ Keptn.decrypt_secret sample_env "rsa:c2VjcmV0"
same-decrypt_secret_example = same-decrypt_secret sample_env "rsa:c2VjcmV0" key_set
