-- ===== src/Operator/Secrets/Sample.antt =====
-- rsa and base64 on the small cluster.
use keptn_gitops_operator.Base.{
  String, Bool, true, false, ◌&&◌, ◌≡◌, refl, arith, value, ◌==◌, eq_iff,
}
use keptn_gitops_operator.Cluster.Sample.{sample_env, encrypted}
use keptn_gitops_operator.Operator.Secrets.Plain.{IsRsa}

boxed : (b : Bool) (ct : String) → encrypted b ≡ value ct → (b ≡ true) × (ct ≡ "box")
boxed true ct h = (refl, ground arith)
boxed false ct h = absurd (ground arith)

-- The small cluster's encryption is undone by its decryption, with the same label.
box-encrypted :
    (m l ct : String)
    → encrypted (m == "secret" && l == "OAEP Encrypted") ≡ value ct
    → ((m ≡ "secret") × (l ≡ "OAEP Encrypted")) × (ct ≡ "box")
box-encrypted m l ct h = ground (arith, eq_iff m "secret", eq_iff l "OAEP Encrypted", boxed _ ct h)

pub sample_IsRsa : IsRsa sample_env
sample_IsRsa = record {
  decrypts = λ s hash private m l ct h.
      (let ((secret, label), box) = box-encrypted m l ct h in rw (secret, label, box) refl);
  encodes = λ s hash public m l ct h.
      (let box = (box-encrypted m l ct h).1 in
        rw box ((refl, (refl, (refl, (refl, (refl, (refl, (refl, (refl, tt)))))))), refl));
}
