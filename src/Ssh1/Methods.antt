-- ===== src/Ssh1/Methods.antt =====
-- The table of methods of auth1.c, its lookup, and the five methods.
use gexcloud.Auth.Privsep.{packet_check_eom, packet_get_cstring, packet_get_string}
use gexcloud.Base.{Bool, List, Option, [], if◌then◌else◌, none, not, some, take, ℕ, ◌++◌, ◌==◌, ◌∷◌}
use gexcloud.Server.Env.{Env, ServerOptions}
use gexcloud.Server.Event.{
  Authenticated, called_auth_password, called_auth_rhosts_rsa, called_auth_rsa, called_bn_new,
  called_get_challenge, called_verify_response, get_bignum, get_int, postponed, result, sent,
  smsg_auth_tis_challenge,
}
use gexcloud.Server.Monad.{
  M, ask, bad_packet, consult, disconnect, emit, fatal, halt_if, match_option, modify, or_halt,
  out_of_memory, pure, ◌>>=◌, ◌>>◌,
}
use gexcloud.Text.{Bytes, codes, decimal, snprintf}

pub data Method : Type 0 where
  process_password process_rsa process_rhosts_rsa process_tis_challenge : Method
  process_tis_response : Method

-- struct AuthMethod1. `enabled` points into the global `options`.
pub record AuthMethod1 : Type 0 where
  pub type : ℕ
  pub name : Bytes
  pub enabled : ServerOptions → Bool
  pub method : Method

-- The message numbers of the SSH 1.5 protocol.
abbrev pub ssh_cmsg_auth_rsa : ℕ
ssh_cmsg_auth_rsa = 6

abbrev pub ssh_cmsg_auth_password : ℕ
ssh_cmsg_auth_password = 9

abbrev pub ssh_cmsg_auth_rhosts_rsa : ℕ
ssh_cmsg_auth_rhosts_rsa = 35

abbrev pub ssh_cmsg_auth_tis : ℕ
ssh_cmsg_auth_tis = 39

abbrev pub ssh_cmsg_auth_tis_response : ℕ
ssh_cmsg_auth_tis_response = 41

-- The row { -1, NULL, NULL, NULL } is the end of the list.
unfoldable pub auth1_methods : List AuthMethod1
auth1_methods =
    record {
      type = ssh_cmsg_auth_password;
      name = codes "password";
      enabled = λ o. o.password_authentication;
      method = process_password;
    }
    ∷ record {
      type = ssh_cmsg_auth_rsa;
      name = codes "rsa";
      enabled = λ o. o.rsa_authentication;
      method = process_rsa;
    }
    ∷ record {
      type = ssh_cmsg_auth_rhosts_rsa;
      name = codes "rhosts-rsa";
      enabled = λ o. o.rhosts_rsa_authentication;
      method = process_rhosts_rsa;
    }
    ∷ record {
      type = ssh_cmsg_auth_tis;
      name = codes "challenge-response";
      enabled = λ o. o.challenge_response_authentication;
      method = process_tis_challenge;
    }
    ∷ record {
      type = ssh_cmsg_auth_tis_response;
      name = codes "challenge-response";
      enabled = λ o. o.challenge_response_authentication;
      method = process_tis_response;
    }
    ∷ []

unfoldable pub find_type : List AuthMethod1 → ℕ → Option AuthMethod1
find_type [] type = none
find_type (m ∷ ms) type = if m.type == type then some m else find_type ms type

unfoldable pub lookup_authmethod1 : ℕ → Option AuthMethod1
lookup_authmethod1 type = find_type auth1_methods type

unfoldable pub get_authname : ℕ → Bytes
get_authname type = elim (lookup_authmethod1 type) [
  | some a ↦ a.name
  | none ↦ snprintf 64 (codes "bad-auth-msg-" ++ decimal type)
]

module _ (env : Env) where
  unfoldable pub auth1_process_password : M Authenticated
  auth1_process_password = do
    password ← packet_get_string env
    packet_check_eom env
    authenticated ← consult (called_auth_password password) (env.auth_password password)
    pure (result authenticated)

  unfoldable pub auth1_process_rsa : M Authenticated
  auth1_process_rsa = do
    allocated ← ask called_bn_new env.bn_new
    halt_if (not allocated) (fatal out_of_memory)
    read ← ask get_bignum env.packet_get_bignum
    n ← or_halt read (disconnect bad_packet)
    packet_check_eom env
    authenticated ← consult (called_auth_rsa n) (env.auth_rsa n)
    pure (result authenticated)

  abbrev read_bignum : M ℕ
  read_bignum = do read ← ask get_bignum env.packet_get_bignum; or_halt read (disconnect bad_packet)

  -- `snprintf(info, infolen, " ruser %.100s", client_user)`
  abbrev ruser_info : Bytes → Bytes
  ruser_info client_user = snprintf 1024 (codes " ruser " ++ take 100 client_user)

  -- The result, and the text for the log. A difference between `bits` and the size of the key is
  -- only logged.
  unfoldable pub auth1_process_rhosts_rsa : M (Authenticated × Bytes)
  auth1_process_rhosts_rsa = do
    client_user ← packet_get_cstring env
    modify (λ s. record s { client_user = some client_user })
    read ← ask get_int env.packet_get_int
    bits ← or_halt read (disconnect bad_packet)
    e ← read_bignum
    n ← read_bignum
    packet_check_eom env
    authenticated ←
        consult (called_auth_rhosts_rsa client_user e n) (env.auth_rhosts_rsa client_user)
    pure (result authenticated, ruser_info client_user)

  unfoldable pub auth1_process_tis_challenge : M Authenticated
  auth1_process_tis_challenge = do
    challenge ← consult called_get_challenge env.get_challenge
    match_option challenge (pure (result 0))
        λ text. do emit (sent (smsg_auth_tis_challenge text)); pure postponed

  unfoldable pub auth1_process_tis_response : M Authenticated
  auth1_process_tis_response = do
    response ← packet_get_string env
    packet_check_eom env
    authenticated ← consult (called_verify_response response) (env.verify_response response)
    pure (result authenticated)

  -- `meth->method(authctxt, info, sizeof(info))`: the methods but one leave `info` empty.
  abbrev pub without_info : M Authenticated → M (Authenticated × Bytes)
  without_info m = do a ← m; pure (a, [])

  unfoldable pub run_method : Method → M (Authenticated × Bytes)
  run_method process_password = without_info auth1_process_password
  run_method process_rsa = without_info auth1_process_rsa
  run_method process_rhosts_rsa = auth1_process_rhosts_rsa
  run_method process_tis_challenge = without_info auth1_process_tis_challenge
  run_method process_tis_response = without_info auth1_process_tis_response
