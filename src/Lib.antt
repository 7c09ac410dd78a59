-- ===== src/Lib.antt =====
-- Verification of the authentication layer of sshd that this repository builds into its base
-- image: the files base/ssh/12/auth1.c (protocol 1), base/ssh/12/auth2.c (protocol 2) and
-- base/ssh/auth-pam_next.c (PAM), as they are patched here. The patch marks every user as valid.
--
-- How the parts interact. Protocol 1 (auth1.c) reads the user's name, starts PAM, and then runs a
-- loop over packets, each of which asks for one method. Protocol 2 (auth2.c) is a table of handlers
-- for packets: a service request registers the handler for user authentication, which looks up a
-- method, runs it and hands its result to userauth_finish. Both end in the same tests on the user
-- and ask PAM for the account. auth-pam_next.c keeps the PAM handle, converses with PAM modules by
-- one of five conversation functions, and runs keyboard-interactive authentication in a second
-- process, with which it talks over a socket pair.
--
-- Which file models which part.
--   Base, Base/Tests, Base/Lists   library names, tests and list functions over native numbers
--   Text, Text/Laws                C strings as lists of bytes; libc functions on them
--   Server/Pam, Server/Event       the vocabulary of libpam; the events of the history
--   Server/Env                     the code and the machine around the three files
--   Server/State                   Authctxt, struct pam_ctxt, the statics, the dispatch table
--   Server/Monad                   actions on the state
--   Server/Laws, Frame, Hoare, Stops
--                                  inversion, frames, pre- and postconditions, how actions end
--   Auth/UserName                  user[:style][/role], as both protocols take it apart
--   Auth/Privsep, Auth/Checks      PRIVSEP(...) calls; the tests on a user that both protocols make
--   Ssh1/Methods, Round, Loop      auth1.c: auth1_methods and the methods; a round of do_authloop;
--                                  do_authloop and do_authentication
--   Ssh2/Banner, Methods, Finish, Request
--                                  auth2.c: the banner; authmethods_get and authmethod_lookup;
--                                  userauth_finish; the two packet handlers
--   Ssh2/Protocol                  dispatch_run as a step relation on the two handlers; its child View
--                                  is what the protocol promises, with no word of handlers, its
--                                  child Answer is a request up to userauth_finish, and its child
--                                  Guesses counts the refused requests of a connection
--   Pam/Context                    access to the statics and to pam_ctxt objects by pointer
--   Pam/Conversation               the five conversation functions and the dialogue of a PAM call
--   Pam/Relay                      the conversation of the PAM process on a script; its children
--                                  Exchange and Verdict have the two ends of the socket pair together
--   Pam/Account                    sshpam_password_change_required, do_pam_account, and the wrapper
--                                  sshpam_chauthtok_ruid
--   Pam/Environment                export and import of environments, do_pam_putenv, the accessors and
--                                  free_pam_environment
--   Pam/Process                    the pthread_* functions made of processes, the SIGCHLD handler; its
--                                  child Interrupted has sshpam_thread_cleanup, and the start of a
--                                  PAM process, statement by statement
--   Pam/Handle                     sshpam_init, start_pam, sshpam_cleanup, finish_pam
--   Pam/Thread                     sshpam_thread, the body of the PAM process; its child Truth has
--                                  the part in front of pam_authenticate as an action of its own
--   Pam/Device                     sshpam_init_ctx, sshpam_query, sshpam_respond, sshpam_free_ctx; its
--                                  child Interface has KbdintDevice, its two tables, what a device
--                                  has to keep, and the sequences of calls that a client may make
--   Pam/Session, Pam/Password      what the session code calls; sshpam_auth_passwd
--   Tests                          a concrete server, on which the theorems are applied
--
-- How code becomes a definition. A function of C is an action on the record Server that ends with a
-- value, or ends the process with a reason (fatal, packet_disconnect, _exit, or a step that C leaves
-- undefined). Every call of code outside the three files, and every packet, becomes an event of the
-- history, and the answer is a function of the history that the record Env holds; so a theorem for
-- every Env holds whatever the outside answers, and however the answers change from call to call.
-- Authentication code in other files (auth_password, the methods of protocol 2, the monitor's calls)
-- may also change what it shares with the three files: PAM's statics, the forwarding flags, the
-- login message and the flag for a password change. Its answer is a function of the whole state, and
-- gives these back (Server/Monad, consult). A method of protocol 2 that has postponed its answer
-- calls userauth_finish later, from a handler of its own: Ssh2/Protocol has a step for it. The
-- options are those of the server as getpwnamallow leaves them. A PAM module is a tree of
-- conversations, which may change the environment of the process in between. A pointer to a pam_ctxt
-- is an index into a list of objects. The packet layer's failures end the process. Assumed of code
-- outside are only: that buffer.c gets back what it puts (Pam/Environment/RoundTrip, IsCodec), that
-- the socket pair delivers (Pam/Relay), and that fork gives no parent the pid 0 (Pam/Device/Opening,
-- ForkPid). Each has an instance under Tests.
--
-- Bounds and fuel. Counters are native numbers that stay far below 2^31: failures never passes
-- MaxAuthTries, and attempt counts packets. The decimal numeral of a message type has at most ten
-- digits, which hold every int. Loops over packets recur on the list of packets that the client
-- sends; when there are none left, the read does not return. The loop of sshpam_query recurs on the
-- list of messages that arrive.
--
-- Build options. USE_PAM is on; KRB5, SSH_AUDIT_EVENTS, GSSAPI, JPAKE, PAM_TTY_KLUDGE,
-- HAVE_PAM_PUTENV, HAVE_PAM_GETENVLIST and SSHPAM_CHAUTHTOK_NEEDS_RUID are left open; BSD_AUTH,
-- _UNICOS, HAVE_CYGWIN and UNSUPPORTED_POSIX_THREADS_HACK are off.
--
-- Not modelled: log and debug output, process titles, the wiping of memory, a signal that arrives in
-- the middle of a call (except in the start of a PAM process and in sshpam_thread_cleanup, which
-- Pam/Process/Interrupted has statement by statement; between calls, the handler of SIGCHLD is a step
-- in Pam/Device/Interface), an empty message on the socket pair (ssh_msg_send always puts a type
-- byte), and dispatch.c, packet.c, buffer.c, libpam and the monitor, which are not in the repository.
-- The deployment scripts of the repository (Ruby, Chef, YAML, Python, shell) and its copy of Lua are
-- not modelled.
pub mod Base
pub mod Text
pub mod Server
pub mod Pam
pub mod Auth
pub mod Ssh1
pub mod Ssh2
pub mod Tests
