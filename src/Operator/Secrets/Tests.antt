-- ===== src/Operator/Secrets/Tests.antt =====
-- A plain secret, and one that has been encrypted.
use keptn_gitops_operator.Base.{◌≡◌, refl, value, returned}
use keptn_gitops_operator.Cluster.{perform}
use keptn_gitops_operator.Cluster.Sample.{sample_env, sample_world}
use keptn_gitops_operator.Operator.Instance.{
  encrypt_public_pem, encrypt_with, encrypt, rsa_oaep_encrypt, encoded_or_exit,
}
use keptn_gitops_operator.Operator.Secrets.Sample.{sample_IsRsa}
use keptn_gitops_operator.Operator.Secrets.{decrypt_secret, decode_pem}
use keptn_gitops_operator.Operator.Secrets.Plain.{decrypt-encrypt}

encrypted_secret :
    (encrypt_public_pem sample_env "secret" sample_world).0 ≡ returned (value "rsa:c2VjcmV0")
unfolding encrypt_public_pem encrypt_with encrypt rsa_oaep_encrypt encoded_or_exit decode_pem
    perform
encrypted_secret = refl

decrypt-encrypt_example : decrypt_secret sample_env "rsa:c2VjcmV0" ≡ returned (value "secret")
decrypt-encrypt_example =
    decrypt-encrypt sample_env sample_IsRsa "secret" "rsa:c2VjcmV0" sample_world encrypted_secret
