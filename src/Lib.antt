-- ===== src/Lib.antt =====
-- A model of aws-iprotate: a web service that rotates the addresses of proxies on AWS. Each profile
-- is a section of config.conf and has an EC2 instance, a WireGuard tunnel to it, proxies on this
-- machine and firewall rules. Requests start tasks; a task changes the instance, the files and the
-- firewall of one profile.
--
-- The parts, and the files that model them:
-- * Config (functions/main.py, the methods of ConfigLoader that read and write config.conf). The
--   object is the parser that it holds, beside what its constructor has loaded. Config/Defaults,
--   Config/Again, Config/Numbering, Config/Orders, Config/Filled, Config/Keys, Config/Frame,
--   Config/Writes, Config/Stable, Config/InStep, Config/Sets and Config/Race have the theorems.
-- * Profile (functions/main.py, generate_*): the files of a profile, as values; Profile/Files and
--   Profile/Contents, where the contents are written out, Profile/Ports and Profile/Tunnel, and Profile/Paths, Profile/Frame, Profile/Near and
--   Profile/Written for the two ends of a tunnel among the files.
-- * Connection (functions/connection.py): Firewall and Socks5; Connection/Rules,
--   Connection/Exact and Connection/Made.
-- * Aws (functions/aws.py): the class Aws, in Aws/Client (sessions, addresses), Aws/Launch (instances,
--   keys, security groups), Aws/Rotate (get_new_ip) and Aws/Fingerprint; Aws/Reuse,
--   Aws/Pages, Aws/Addresses, Aws/Elastic, Aws/Rotate/Replace, Aws/Launch/Made,
--   Aws/Launch/Begun,
--   Aws/Launch/Stored and Aws/Launch/Saved have the theorems.
-- * SshSetup (functions/ssh_setup.py): the login and the set-up of an instance; SshSetup/Retry.
-- * Service (functions/service.py): the systemd units; Service/Names.
-- * Run (functions/run.py): the five tasks of RunTask, on the values of Run/Values; Run/Endpoint, Run/Region,
--   Run/Untouched and Run/Whitelist are about what they leave.
-- * Tasks (functions/task_manager.py): the profiles and the life of a task; Tasks/Answers, Tasks/Life.
--   Tasks/Threads is the step relation of the handlers and the threads on the shared profiles;
--   Tasks/Idles, Tasks/Sound, Tasks/Accounting, Tasks/Progress and Tasks/Overlap are about it.
-- * App (app.py): the request handlers, with what they read and send in Replies; App/Keys,
--   App/Secrets, App/Refusal and App/Logins; App/Routes lists the handlers, App/Steps has the steps
--   that a route may take, and App/Paths sets the handlers beside them. App/Start is the start of the service, with the timeout that nothing
--   calls.
-- * Garbage (garbage/main2.py and garbage/config.py): an earlier loader, and an editor of the lines of
--   a configuration file; nothing of the service uses them.
-- * Scripts (the ends of functions/aws.py, functions/ssh_setup.py, functions/service.py and
--   garbage/config.py): what these files do when they are started by themselves.
-- Below these: Prelude (texts, dicts, lists), Py (exceptions as values, statements as functions on a
-- state, with for_each for the loops, and what holds of them in Py/Keeps and
-- Py/Ensures), ConfigParser (configparser as a dict of sections), Host (the
-- machine: config.conf, the other files, the outside world) and Outside (boto3, paramiko, pyufw,
-- systemd, the shell and the proxy probe as parameters). Tests has a concrete run of each theorem.
--
-- How they interact: a handler of App makes a ConfigLoader and an Aws, checks the key, and puts the
-- keyword arguments of a task on the list of threads. A thread runs `set_start_task` of Tasks, which
-- marks the profile busy, runs a task of Run, marks it idle and reloads it. The tasks use all others.
-- A statement is a function from a state to a result and a new state; what a statement has changed
-- before it raises stays changed. Alone, a handler or a task is such a function. Together they are
-- steps on one shared state, in any order: a step is one whole access to the profiles (the registration
-- of a profile, the marking as busy, the marking as idle, the reload), the start of a thread, or any
-- change of the machine. A task may so give any answer that it gives from some state of the machine.
--
-- Loops and fuel: the loops over lists are structural. The retries of SSHSetup.connect and the five
-- probes of a proxy count down as the source counts up. The loop over the pages of instance types has
-- `page_limit` as fuel, a parameter of the service: the number of pages that it sends at most.
--
-- Not modelled: the text of an INI file. config.conf is kept parsed, as the parser reads it: a value
-- that a request brings and that is written there loses the blanks at its ends (`as_read`, in the tasks
-- change_whitelist, change_region and change_auth); the ids of instances, which are written too, have
-- none. Line breaks within a value, the section DEFAULT and the interpolation of `%`
-- are left out, and what the parser does with an empty section name; `int` on other texts than decimal
-- digits; that a relative path and an absolute one may name
-- one file; log lines; the return value of `launch_instance`, which nothing reads; the calls of app.py
-- that open the firewall and run the web server; what the scripts at the end of the files print, the
-- Ansible roles, and garbage/ping.py, a copy of the library ping3. A key that a profile lacks and a key
-- that is None are one. Two threads in the middle of one access to the profiles
-- are not modelled, nor are the steps of two tasks on the same file.
pub mod Prelude
pub mod Py
pub mod ConfigParser
pub mod Host
pub mod Config
pub mod Outside
pub mod Connection
pub mod Profile
pub mod SshSetup
pub mod Service
pub mod Run
pub mod Tasks
pub mod Replies
pub mod App
pub mod Aws
pub mod Garbage
pub mod Scripts
pub mod Tests
