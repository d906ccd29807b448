-- ===== src/Run/Values.antt =====
-- The values that `class RunTask` of functions/run.py takes and answers with, and all that is
-- outside the program.
use aws_iprotate_python.Prelude.{String, Bool, true, false, Option}
use aws_iprotate_python.Outside.{Ec2, Net, Ssh, Systemd}
use aws_iprotate_python.Config.{ConfigLoader}
use aws_iprotate_python.Aws.Rotate.{NewIp}

-- all that is outside the program
pub record World (W : Type 0) : Type 0 where
  pub ec2 : Ec2 W
  pub net : Net W
  pub ssh : Ssh W
  pub systemd : Systemd W
  -- `datetime.datetime.now()`, formatted
  pub now : W → String × W

-- The `data` of an answer.
pub data Data : Type 0 where
  failure : String → Data
  notice : String → Data
  moved : String → String → String → Data
  rotated : NewIp → Data
  whitelisted : Option String → Data
  authenticated : Option String → Option String → Data
  done : String → Data

-- `{"status": …, "data": …}`; the status is "success" or "failed"
pub record Answer : Type 0 where
  pub success : Bool
  pub payload : Data

abbrev pub succeeded : Data → Answer
succeeded d = record { success = true; payload = d }

abbrev pub failed : Data → Answer
failed d = record { success = false; payload = d }

-- the keyword arguments of a task, those that a request has
pub record Kwargs : Type 0 where
  pub config_name : String
  pub task_type : String
  pub new_region : Option String
  pub new_whitelist : Option String
  pub new_user : Option String
  pub new_pass : Option String

-- `RunTask()`
pub record RunTask : Type 0 where
  pub config : ConfigLoader
  pub key_path : String
