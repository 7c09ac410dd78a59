-- ===== src/Tests/Servers.antt =====
-- States of the concrete server: a new connection, and one on which alice has been named.
use gexcloud.Base.{[], false, none, some, true, ◌∷◌}
use gexcloud.Pam.Account.{undecided}
use gexcloud.Server.Pam.{null_conv, pam_success, store_conv}
use gexcloud.Server.State.{PamCtxt, Server, protocol_error, sig_dfl, succeeded}
use gexcloud.Tests.World.{alice}
use gexcloud.Text.{codes}

abbrev context : PamCtxt
context = record { pam_thread = 77; pam_psock = some 3; pam_csock = none; pam_done = succeeded }

abbrev pub fresh : Server
fresh = record {
  auth = record {
    success = false;
    valid = false;
    postponed = false;
    server_caused_failure = false;
    force_pwchange = 0;
    attempt = 0;
    failures = 0;
    user = none;
    service = none;
    style = none;
    role = none;
    pw = none;
  };
  pam = record {
    handle = none;
    err = pam_success;
    authenticated = false;
    session_open = false;
    cred_established = false;
    account_status = undecided;
    child_env = none;
    authctxt_set = false;
    password = none;
    conv = null_conv;
    contexts = [];
    cleanup_ctxt = none;
    thread_status = none;
    oldsig = sig_dfl;
    sigchld = sig_dfl;
  };
  forwarding = record { no_port = 1; no_agent = 0; no_x11 = 0 };
  dispatch = record { service_request = protocol_error; userauth_request = protocol_error };
  loginmsg = [];
  client_user = none;
  environ = [];
  history = [];
}

-- alice has been named, and PAM has been started.
abbrev pub named : Server
named = record fresh {
  auth = record fresh.auth {
    valid = true;
    attempt = 2;
    user = some (codes "alice");
    service = some (codes "ssh-connection");
    pw = some alice;
  };
  pam = record fresh.pam {
    handle = some 1;
    authctxt_set = true;
    conv = store_conv;
    session_open = true;
    contexts = some context ∷ [];
  };
}
