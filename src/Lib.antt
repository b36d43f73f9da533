-- ===== src/Lib.antt =====
-- The access control of pf, a certificate authority for SSH with roles and boundaries: who may do
-- what, which requests are taken as signed by whom, which certificates are issued and what a host
-- makes of them, what is known of the sessions that they open and how a host ends these, what is
-- cleaned up when an object that grants name is deleted and when a retention period ends, the
-- identities themselves, and the wire formats of the agent.
--
-- The parts, and the code that they model:
--
-- - Grant and Grant.Permission: the grants, roles and boundaries of
--   src/provablyfine/api/model/grant.py, role.py and boundary.py, one data type or record for each
--   class, with the fields of the class. An id is a natural number; the tables give out no others.
-- - Checker: `Checker` of src/provablyfine/api/grant.py, with one module for each checker that is
--   built on it (Checker.TagChecker for `TagChecker`, and so on). A checker holds the lists that
--   `Grants` gives it: the boundaries and the roles of the caller. Refusals are values.
-- - Ssh: `SSHChecker` of the same file, which decides about a login on one host. Ssh.Ttl has the
--   bounds of a session, Ssh.Capabilities and Ssh.Commands the two tables that a decision is made
--   of (`CapabilityTtl` and `SSHCommandPermissions`), Ssh.Decision the checker itself. A Python
--   dict is an association list in insertion order (Base.Dict), a set is a list.
-- - Signature: src/provablyfine/api/signature.py. Signature.NonceStore is the memory of accepted
--   nonces, Signature.Message reads the headers and builds the signed text, Signature.Verify is
--   `verify`, Signature.Session has the three ways to authenticate. The nonce store and the entries
--   about rejected keys are a state that is passed along. An outcome (Http) is a value, a problem
--   response, or an exception that is not caught.
-- - Certificate: the builder calls of src/provablyfine/ssh/cert.py. Certificate.UserSigning and
--   Certificate.HostSigning are the two endpoints of src/provablyfine/api/endpoints/ssh.py that sign,
--   over the rows of Certificate.Tables; Certificate.Serial is `allocate_serial_numbers` of
--   src/provablyfine/api/model/signing_key.py, with what other requests reserve between a read and
--   its conditional update as an argument. Certificate.Principals is what a host tells
--   sshd about a certificate (`_authorized_principals` of src/provablyfine/cli/pf/openssh_cli.py).
-- - Wire: src/provablyfine/ssh/buffer.py (Wire.Buffer, over the conversions of Wire.Bytes) and the
--   frames of `WireSocket` in src/provablyfine/ssh/wire.py (Wire.Socket). The transport is a parameter,
--   with what `Transport` documents as the hypothesis IsStream. The two loops of a socket are on fuel:
--   as many rounds as bytes are missing, since a round takes one at least or ends the loop.
--   Wire.Agent is `Client` of src/provablyfine/ssh/agent.py; what reads a key or a UTF-8 text is a
--   parameter.
-- - Live: the live sessions. Live.Registry is src/provablyfine/api/model/live.py over the rows of the
--   connections that Certificate.UserSigning creates, Live.Endpoints is
--   src/provablyfine/api/endpoints/live.py, with Checker.LiveChecker. What a bastion answers to a
--   command is a function that is a parameter.
-- - Retention: `purge_tenant` of src/provablyfine/api/model/retention.py, with the retention classes
--   of audit_types.py. Its two loops are rounds on fuel, one more than the table has rows: a transaction
--   that does not end the loop deletes a row. There is no result where the fuel runs out.
-- - Reaper: src/provablyfine/cli/pf/openssh_session_reaper.py. Reaper.Record reads the records that
--   an unprivileged user writes, under the names of Reaper.Names; Reaper.Processes has the trees of
--   processes of host/procs.py, whose two loops are on fuel, one or two rounds more than the table
--   has processes; Reaper.Requests is `KillRequests`. Reaper.Sessions has the methods of the class
--   `Reaper` that handle one record, Reaper.Ticks its `tick` and what follows from many ticks. What
--   the operating system answers during a tick is a record (Host), with the times that are read.
--   The answers of a tick do not change while it runs. A failing unlink is a value there; errors of
--   other calls, which end the handling of one record, are left out. Reaper.Logind is the reaper of
--   Linux with the names of session_records.py, Reaper.Hook the hook of PAM that sets the timers
--   (openssh_pam_session_deadline_linux.py), Reaper.Spool the events that wait for the server
--   (live_events.py; a file stands under the time stamp of its name), and Reaper.Terminator who asks for an end, with session_kill.py.
-- - Identities: src/provablyfine/api/model/identity.py over its tables, with Identities.Snapshot for
--   what a deletion keeps in the audit log. A read that the code ends with a KeyError is a crash,
--   and so is a write against a unique constraint of src/provablyfine/api/app_db.py.
-- - Naming: which grants name an identity, a bastion or a tag
--   (src/provablyfine/api/model/identity_grants.py, bastion_grants.py, tag_grants.py), and the ids
--   that an audit entry keeps (`referenced_ids` of model/grant.py). Naming.Store has the tables of
--   roles and boundaries with `update` of model/role.py and model/boundary.py, and the loops of
--   `find` and `remove`; Naming.Remove has these for the three kinds of objects.
-- - Base: the numbers, lists, options, equality tests and dictionaries that all parts use.
--
-- The parts meet as in the code: a decision reads the grants of the caller's boundaries and roles,
-- a request that Signature lets in carries the identity and the role whose grants these are, and
-- Naming changes the grants that later decisions read. A certificate follows from a decision, and
-- the connection that is recorded with it is what a host may report sessions of. The deadline and
-- the connection id of the certificate are what the hook and the reaper of a host go by, and the
-- events that they leave in the spool are what Live is told.
--
-- Parameters of the model are the parser of structured fields (http_sfv), the hashes, keys and
-- signatures (hashlib, hmac, cryptography, jwk.py), the rows of the database, and the time: each
-- call takes the times that the code reads. On a host, the processes, the files and what they hold
-- are parameters, with the titles of processes and the case of letters. Nothing is assumed of them
-- but of the transport, that keys and comments can be read where an agent lists them, that json.loads
-- reads a record as it was written, and, where a theorem says so, that files can be removed. Times and ids are natural numbers, `created` of a
-- signature is an integer. The loops that are not named above go over a list, except that the digits
-- of a number and its bits are counted on fuel that is the number itself, or one more.
--
-- Not modelled: the validation by pydantic, the details and the rendering of problem responses, the
-- routes, the database, the audit log beyond the kinds of its entries, changes to the members of
-- roles, bastions and their tokens, the reading of certificates, the clients, the other command line
-- programs and the terminal interface.
mod Base
pub mod Grant
pub mod Checker
pub mod Http
pub mod Ssh
pub mod Signature
pub mod Certificate
pub mod Wire
pub mod Live
pub mod Retention
pub mod Reaper
pub mod Identities
pub mod Cli
pub mod Naming
