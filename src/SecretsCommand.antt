-- ===== src/SecretsCommand.antt =====
-- keptn-gitops-secrets/cmd: the command that makes key pairs, and encrypts and decrypts secrets with
-- them.
mod Tests
pub mod RoundTrip
use keptn_gitops_operator.Base.{
  String, ◌<>◌, Bool, true, false, Option, none, some, List, [], ◌∷◌, ◌==◌, GoError, failed,
  error_text, Reply, value, error, if◌then◌else◌,
}
use keptn_gitops_operator.Cluster.{
  write_file, read_file, generate_key, print, encrypt_oaep, Env, Exec, pure, panic, perform, ◌>>=◌,
  ◌>>◌,
}
use keptn_gitops_operator.Operator.Secrets.{split_colon}

-- The flags of the root command.
pub record Flags : Type 0 where
  pub quiet : Bool
  pub json_enabled : Bool

module _ (E : Env) where
  unfoldable pub encoded : Reply String → Reply String
  encoded (error err) = error err
  encoded (value ciphertext) = value (E.base64_encode ciphertext)

  unfoldable pub rsa_oaep_encrypt : String → String → Exec E (Reply String)
  unfolding encoded
  rsa_oaep_encrypt secret_message key = do
    ciphertext ← perform (encrypt_oaep "sha256" key secret_message "OAEP Encrypted")
    pure (encoded ciphertext)

  encrypt_with : String → Reply String → Exec E (Reply String)
  unfolding rsa_oaep_encrypt
  encrypt_with message (error err) = pure (error err)
  encrypt_with message (value key) = rsa_oaep_encrypt message key

  -- `block.Bytes` of a nil block panics.
  encrypt_in_block : String → Option String → Exec E (Reply String)
  unfolding encrypt_with
  encrypt_in_block message none = panic "nil pointer dereference"
  encrypt_in_block message (some bytes) = encrypt_with message (E.parse_public_key bytes)

  encrypt_from_file : String → String × Option GoError → Exec E (Reply String)
  unfolding encrypt_in_block
  encrypt_from_file message (key, some err) = pure (error err)
  encrypt_from_file message (key, none) = encrypt_in_block message (E.pem_decode key)

  unfoldable pub encrypt_public_pem : String → String → Exec E (Reply String)
  unfolding encrypt_from_file
  encrypt_public_pem message keyfile = do
    key ← perform (read_file keyfile)
    encrypt_from_file message key

  -- The error of the base64 text is dropped.
  unfoldable pub rsa_oaep_decrypt : String → String → Reply String
  rsa_oaep_decrypt cipher_text key =
      E.decrypt_oaep "sha256" key (E.base64_decode cipher_text).0 "OAEP Encrypted"

  decrypt_with : String → Reply String → Exec E (Reply String)
  unfolding rsa_oaep_decrypt
  decrypt_with message (error err) = pure (error err)
  decrypt_with message (value key) = pure (rsa_oaep_decrypt message key)

  decrypt_in_block : String → Option String → Exec E (Reply String)
  unfolding decrypt_with
  decrypt_in_block message none = panic "nil pointer dereference"
  decrypt_in_block message (some bytes) = decrypt_with message (E.parse_private_key bytes)

  decrypt_from_file : String → String × Option GoError → Exec E (Reply String)
  unfolding decrypt_in_block
  decrypt_from_file message (key, some err) = pure (error err)
  decrypt_from_file message (key, none) = decrypt_in_block message (E.pem_decode key)

  unfoldable pub decrypt_private_pem : String → String → Exec E (Reply String)
  unfolding decrypt_from_file
  decrypt_private_pem message keyfile = do
    key ← perform (read_file keyfile)
    decrypt_from_file message key

  decrypt_parts : List String → Option String → Exec E (Reply String)
  unfolding decrypt_private_pem
  decrypt_parts data_ none = pure (
      error (
        failed
          "environment variable RSA_PRIVATE_KEY is not set, will not be able to decrypt secrets"))
  decrypt_parts (scheme ∷ message ∷ more) (some pem_private) =
      decrypt_private_pem message pem_private
  decrypt_parts _ (some pem_private) = panic "index out of range"

  decrypt_split : String → List String → Exec E (Reply String)
  unfolding decrypt_parts
  decrypt_split secret [] = panic "index out of range"
  decrypt_split secret (scheme ∷ more) =
      if scheme == "rsa"
      then decrypt_parts (scheme ∷ more) (E.lookup_env "RSA_PRIVATE_KEY")
      else pure (value secret)

  -- What the variable holds is taken for the name of a file.
  unfoldable pub decrypt_secret : String → Exec E (Reply String)
  unfolding decrypt_split split_colon
  decrypt_secret secret = decrypt_split secret (split_colon secret)

  -- The end of RunEncryption and of RunDecryption.
  abbrev pub print_secret : Flags → Reply String → Exec E (Option GoError)
  print_secret flags (error err) = pure (some err)
  print_secret flags (value secret) =
      if flags.quiet then pure none else (do perform (print secret); pure none)

  unfoldable pub run_encryption : Flags → String → String → Exec E (Option GoError)
  unfolding encrypt_public_pem
  run_encryption flags secret public_key =
      encrypt_public_pem secret public_key >>= print_secret flags

  unfoldable pub run_decryption : Flags → String → String → Exec E (Option GoError)
  unfolding decrypt_private_pem
  run_decryption flags secret private_key =
      decrypt_private_pem secret private_key >>= print_secret flags

  unfoldable pub print_json_result : Flags → String → Bool → Exec E Unit
  print_json_result flags message ok =
      if flags.json_enabled then perform (print (E.json_result message ok)) else pure tt

  -- The end of each command's RunE.
  unfoldable pub report_result : Flags → String → Option GoError → Exec E (Option GoError)
  unfolding print_json_result
  report_result flags message none = do print_json_result flags message true; pure none
  report_result flags message (some err) = do
    print_json_result flags (error_text err) false
    pure (some err)

  unfoldable pub encrypt_command : Flags → String → String → Exec E (Option GoError)
  unfolding run_encryption report_result
  encrypt_command flags secret public_key =
      run_encryption flags secret public_key
      >>= report_result flags "The String has been encrypted successfully"

  -- The message is the one of the encryption.
  unfoldable pub decrypt_command : Flags → String → String → Exec E (Option GoError)
  unfolding run_decryption report_result
  decrypt_command flags secret private_key =
      run_decryption flags secret private_key
      >>= report_result flags "The String has been encrypted successfully"

  -- The errors of writing the files are not looked at.
  write_keys : String → Reply String → Exec E (String × String)
  write_keys filebase (error err) = panic (error_text err)
  write_keys filebase (value key) = do
    let private = E.pem_encode "RSA PRIVATE KEY" (E.marshal_private_key key)
    let public = E.pem_encode "RSA PUBLIC KEY" (E.marshal_public_key key)
    perform (write_file (filebase <> ".pub") public)
    perform (write_file (filebase <> ".priv") private)
    pure (private, public)

  unfoldable pub generate_keys : String → Exec E (String × String)
  unfolding write_keys
  generate_keys filebase = do key ← perform (generate_key 2048); write_keys filebase key

  print_keys : Flags → String × String → Exec E (Option GoError)
  print_keys flags (private, public) = if flags.quiet then pure none else (do
    perform (print ("Private Key:\n" <> (E.base64_encode private <> "\n")))
    perform (print ("Public Key:\n" <> E.base64_encode public))
    pure none)

  unfoldable pub run_key_generation : Flags → String → Exec E (Option GoError)
  unfolding generate_keys print_keys
  run_key_generation flags basename = generate_keys basename >>= print_keys flags

  unfoldable pub generate_keys_command : Flags → String → Exec E (Option GoError)
  unfolding run_key_generation report_result
  generate_keys_command flags basename =
      run_key_generation flags basename >>= report_result flags "The Key Pair has been generated"
