-- ===== src/SecretsCommand/Tests.antt =====
-- A secret that is encrypted and decrypted. On the small cluster a file holds its name, and a key pair
-- is one text.
use keptn_gitops_operator.Base.{◌≡◌, refl, value, returned}
use keptn_gitops_operator.Cluster.{perform}
use keptn_gitops_operator.Cluster.Sample.{sample_env, sample_world}
use keptn_gitops_operator.Operator.Secrets.Sample.{sample_IsRsa}
use keptn_gitops_operator.Operator.Secrets.{decrypt_secret}
use keptn_gitops_operator.SecretsCommand.{encrypt_public_pem, decrypt_private_pem}
use keptn_gitops_operator.SecretsCommand.RoundTrip.{
  HoldsPem, decrypt_private_pem-encrypt_public_pem, operator_decrypts,
}

key_file : HoldsPem sample_env "key" "key" sample_world
key_file = record { text = "key"; reads = refl; is_pem = refl }

encrypted_text :
    (encrypt_public_pem sample_env "secret" "key" sample_world).0 ≡ returned (value "c2VjcmV0")
unfolding encrypt_public_pem perform
encrypted_text = refl

decrypt_private_pem-encrypt_public_pem_example :
    (decrypt_private_pem sample_env "c2VjcmV0" "key" sample_world).0 ≡ returned (value "secret")
decrypt_private_pem-encrypt_public_pem_example =
    decrypt_private_pem-encrypt_public_pem sample_env "key" sample_IsRsa "secret" "c2VjcmV0" "key"
      "key" "key" "key" sample_world sample_world key_file refl key_file refl encrypted_text

operator_decrypts_example : decrypt_secret sample_env "rsa:c2VjcmV0" ≡ returned (value "secret")
operator_decrypts_example =
    operator_decrypts sample_env "key" sample_IsRsa "secret" "c2VjcmV0" "key" "key" "key" "key"
      "key" sample_world key_file refl refl refl refl refl encrypted_text
