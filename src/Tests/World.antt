-- ===== src/Tests/World.antt =====
-- A server with PAM and without privilege separation, and a client that knows the password.
use gexcloud.Base.{
  Bool, Option, [], ap, false, if◌then◌else◌, length, none, refl, some, suc, true, zero, ℕ, ◌%◌,
  ◌++◌, ◌==◌, ◌∷◌, ◌≡◌,
}
use gexcloud.Pam.Environment.RoundTrip.{IsCodec}
use gexcloud.Server.Env.{Build, Env, ServerOptions, Userauth, in_parent}
use gexcloud.Server.Event.{
  History, MethodId, get_cstring, method_gssapi, method_gsskeyex, method_hostbased, method_jpake,
  method_kbdint, method_none, method_passwd, method_pubkey,
}
use gexcloud.Server.Pam.{finish, pam_success}
use gexcloud.Server.State.{Answered, Passwd, Server, exited, shared}
use gexcloud.Text.{Bytes, codes}

abbrev pub options : ServerOptions
options = record {
  use_pam = true;
  permit_empty_passwd = false;
  password_authentication = true;
  rsa_authentication = true;
  rhosts_rsa_authentication = false;
  challenge_response_authentication = true;
  kerberos_authentication = false;
  kerberos_or_local_passwd = true;
  permit_root_login_yes = false;
  max_authtries = 6;
  banner = none;
}

abbrev build : Build
build = record {
  krb5 = false;
  audit_events = true;
  gssapi = true;
  jpake = false;
  tty_kludge = true;
  have_putenv = true;
  have_getenvlist = true;
  needs_ruid = false;
}

abbrev pub alice : Passwd
alice = record { pw_name = codes "alice"; pw_uid = 1000 }

abbrev pub nobody : Passwd
nobody = record { pw_name = codes "NOUSER"; pw_uid = 65534 }

abbrev pub name_of : MethodId → Bytes
name_of method_none = codes "none"
name_of method_pubkey = codes "publickey"
name_of method_gsskeyex = codes "gssapi-keyex"
name_of method_gssapi = codes "gssapi-with-mic"
name_of method_jpake = codes "jpake-01@openssh.com"
name_of method_passwd = codes "password"
name_of method_kbdint = codes "keyboard-interactive"
name_of method_hostbased = codes "hostbased"

abbrev enabled_of : MethodId → Option Bool
enabled_of method_none = none
enabled_of method_gsskeyex = some false
enabled_of method_hostbased = some false
enabled_of m = some true

-- A buffer that holds an integer as one element, and a string behind its length.
abbrev take_int : Bytes → Option (ℕ × Bytes)
take_int [] = none
take_int (n ∷ rest) = some (n, rest)

abbrev split_at : ℕ → Bytes → Bytes × Bytes
split_at zero b = ([], b)
split_at (suc n) [] = ([], [])
split_at (suc n) (x ∷ b) = let (front, back) = split_at n b in (x ∷ front, back)

abbrev take_string : Bytes → Option (Bytes × Bytes)
take_string [] = none
take_string (n ∷ rest) = some (split_at n rest)

-- The strings that the client sends, by the number of those that were read.
abbrev read_so_far : History → ℕ
read_so_far [] = 0
read_so_far (get_cstring ∷ h) = suc (read_so_far h)
read_so_far (_ ∷ h) = read_so_far h

abbrev string_at : ℕ → Bytes
string_at n =
    if n == 1
    then codes "ssh-userauth"
    else (if n % 3 == 0
        then codes "ssh-connection"
        else (if n % 3 == 1 then codes "password" else codes "alice"))

abbrev pub unchanged : {A : Type 0} → Server → A → Answered A
unchanged s a = record { value = a; left = shared s }

abbrev pub accepting : Userauth
accepting = record { authenticated = 1; postponed = false; server_caused_failure = false }

abbrev pub world : Env
world = record {
  options = options;
  build = build;
  use_privsep = false;
  is_monitor = false;
  compat20 = true;
  bug_banner = false;
  getuid = 0;
  fakepw = nobody;
  packet_get_string = λ h. some (codes "secret");
  packet_get_cstring = λ h. some (string_at (read_so_far h));
  packet_get_int = λ h. some 1024;
  packet_get_bignum = λ h. some 35;
  packet_check_eom = λ h. true;
  packet_read_expect = λ h. true;
  auth_password = λ p s. unchanged s 1;
  auth_rsa = λ n s. unchanged s 0;
  auth_rhosts_rsa = λ u s. unchanged s 0;
  get_challenge = λ s. unchanged s none;
  verify_response = λ r s. unchanged s 0;
  getpwnamallow = λ u h. some alice;
  auth_root_allowed = λ m h. false;
  disable_forwarding = λ f. f;
  bn_new = λ h. true;
  method_name = name_of;
  method_enabled = λ m h. enabled_of m;
  userauth = λ m s. unchanged s (some accepting);
  mm_do_pam_account = λ s. unchanged s 1;
  mm_auth2_read_banner = λ h. none;
  open_banner = λ h. false;
  fstat_size = λ h. none;
  read_file = λ n h. [];
  pam_max_num_msg = 32;
  pam_start = λ u h. pam_success;
  pam_set_item = λ i h. pam_success;
  pam_get_user = λ h. pam_success;
  pam_user = λ h. codes "alice";
  pam_authenticate = λ b h. finish pam_success;
  pam_acct_mgmt = λ h. finish pam_success;
  pam_chauthtok = λ h. finish pam_success;
  pam_setcred = λ i h. finish pam_success;
  pam_open_session = λ h. finish pam_success;
  setreuid = λ u h. true;
  pam_putenv = λ v h. pam_success;
  pam_getenvlist = λ h. none;
  pam_strerror = λ c. codes "error";
  calloc = λ h. true;
  strdup = λ h. true;
  isatty = λ h. true;
  fgets = λ h. none;
  read_passphrase = λ h. none;
  socketpair = λ h. some (3, 4);
  fork = λ h. in_parent 77;
  waitpid = λ p h. some (exited 0);
  tz = none;
  setenv = λ h. true;
  ssh_msg_send = λ h. true;
  ssh_msg_recv = λ h. none;
  put_int = λ n. n ∷ [];
  put_cstring = λ s. length s ∷ s;
  get_int = take_int;
  get_string = take_string;
}

split_at-append : (s rest : Bytes) → split_at (length s) (s ++ rest) ≡ (s, rest)
split_at-append [] rest = refl
split_at-append (x ∷ s) rest = ap (λ (p : Bytes × Bytes). (x ∷ p.0, p.1)) (split_at-append s rest)

pub world-IsCodec : IsCodec world
world-IsCodec = record {
  get_int-put_int = λ n rest h. refl;
  get_string-put_cstring = λ s rest. ap some (split_at-append s rest);
}

-- The same server with a banner file.
abbrev pub with_banner : Env
with_banner = record world {
  open_banner = λ h. true;
  fstat_size = λ h. some 5;
  read_file = λ n h. codes "hello";
}
