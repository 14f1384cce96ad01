-- ===== src/Cluster/Monad.antt =====
-- What is not the operators' own code is a parameter: an `Env` answers each call from a state of
-- its own, and gives the pure functions of the libraries used. A Go function that calls out is an
-- `Exec`: from a world to its outcome and the world that it leaves.
use keptn_gitops_operator.Base.{
  ℕ, String, ◌<>◌, Bool, Option, none, some, failed, error_text, List, ◌∷◌, GoError, Reply, Outcome,
  returned, ended, panicking, exiting,
}
use keptn_gitops_operator.Api.{Shipyard}
use keptn_gitops_operator.Cluster.Files.{KeptnArtifactMetadataSpec}
use keptn_gitops_operator.Cluster.Calls.{Call, Resp, Hashed, Decoded}

pub record Env : Type 1 where
  pub State : Type 0
  pub respond : (c : Call) → State → Resp c × State
  -- hashstructure.Hash, then strconv.FormatUint
  pub hash : Hashed → String
  -- controllerutil.AddFinalizer and RemoveFinalizer, on the list of finalizers
  pub add_finalizer : List String → String → List String
  pub remove_finalizer : List String → String → List String
  -- os.LookupEnv
  pub lookup_env : String → Option String
  -- base64, pem.Decode, x509.ParsePKCS1PrivateKey, rsa.DecryptOAEP (hash, key, text, label), and the
  -- public key of a private one
  pub base64_decode : String → String × Option GoError
  pub pem_decode : String → Option String
  pub parse_private_key : String → Reply String
  pub decrypt_oaep : String → String → String → String → Reply String
  pub public_key : String → String
  -- time.Parse, url.Parse (its scheme), json.Unmarshal of a CreateEventResponse, yaml.Marshal
  pub parse_time : String → Reply ℕ
  pub parse_scheme : String → Reply String
  pub unmarshal_context : String → Reply String
  pub marshal_shipyard : Shipyard → Reply String
  -- What successive calls of yaml.v3's Decode give up to the end of the file, and Marshal
  pub Yaml : Type 0
  pub yaml_documents : String → List (Reply Yaml)
  pub marshal_yaml : Yaml → Reply String
  -- AddToScheme of a package, and Decode of the universal deserializer
  pub add_to_scheme : String → Option GoError
  pub decode_object : String → Reply Decoded
  -- yaml.Unmarshal of a KeptnArtifactRootMetadata (its project) and of a KeptnArtifactMetadata (its
  -- spec)
  pub unmarshal_root_metadata : String → Reply String
  pub unmarshal_metadata : String → Reply KeptnArtifactMetadataSpec
  -- fmt.Errorf with an argument that the format has no verb for
  pub errorf : String → GoError → String
  -- x509.ParsePKCS1PublicKey, MarshalPKCS1PrivateKey and MarshalPKCS1PublicKey, pem.EncodeToMemory
  -- (type, bytes), base64's EncodeToString, json.Marshal of the command's Result
  pub parse_public_key : String → Reply String
  pub marshal_private_key : String → String
  pub marshal_public_key : String → String
  pub pem_encode : String → String → String
  pub base64_encode : String → String
  pub json_result : String → Bool → String

-- A call with its answer.
pub data Step : Type 0 where
  did : (c : Call) → Resp c → Step

-- A step that fails is reported with a prefix.
abbrev pub wrapped : String → Option GoError → Option GoError
wrapped prefix none = none
wrapped prefix (some err) = some (failed (prefix <> (": " <> error_text err)))

module _ (E : Env) where
  -- The trace has the latest call first.
  pub record World : Type 0 where
    pub state : E.State
    pub trace : List Step

  abbrev pub Exec : Type 0 → Type 0
  Exec A = World → Outcome A × World

module _ {E : Env} where
  abbrev pub pure : {A : Type 0} → A → Exec E A
  pure a w = (returned a, w)

  abbrev pub panic : {A : Type 0} → String → Exec E A
  panic message w = (ended (panicking message), w)

  -- log.Fatal
  abbrev pub exit : {A : Type 0} → String → Exec E A
  exit message w = (ended (exiting message), w)

  abbrev pub continue : {A B : Type 0} → Outcome A → (A → Exec E B) → Exec E B
  continue (returned a) f w = f a w
  continue (ended how) f w = (ended how, w)

  infixl 5 ◌>>=◌ ◌>>◌
  abbrev pub ◌>>=◌ : {A B : Type 0} → Exec E A → (A → Exec E B) → Exec E B
  ◌>>=◌ m f w = continue (m w).0 f (m w).1

  abbrev pub ◌>>◌ : {A B : Type 0} → Exec E A → Exec E B → Exec E B
  m >> k = m >>= λ _. k

  -- Make a call: the answer is the environment's, and the trace records both.
  unfoldable pub perform : (c : Call) → Exec E (Resp c)
  perform c w =
      let r = (E.respond c w.state).0 in
      (returned r, record { state = (E.respond c w.state).1; trace = did c r ∷ w.trace })

  -- The outcome of a function that makes no calls.
  abbrev pub lift : {A : Type 0} → Outcome A → Exec E A
  lift o w = (o, w)

  -- `if err != nil { return fmt.Errorf("prefix: %w", err) }`
  abbrev pub or_fail : String → Option GoError → Exec E (Option GoError) → Exec E (Option GoError)
  or_fail prefix none next = next
  or_fail prefix (some err) next = pure (wrapped prefix (some err))
