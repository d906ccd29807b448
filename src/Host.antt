-- ===== src/Host.antt =====
-- The machine that the program runs on: config.conf in its parsed form, the other files that the
-- program writes, and whatever stands behind the libraries that are not under src/.
use aws_iprotate_python.Prelude.{ℕ, String, Bool}
use aws_iprotate_python.Prelude.Dict.{Dict, insert}
use aws_iprotate_python.Py.{ok, err, Exec, modify}
use aws_iprotate_python.ConfigParser.{Conf}

-- a value that `json.dumps` writes; `arr` and `obj` hold their items in order
mutual
  pub data Json : Type 0 where
    str : String → Json
    num : ℕ → Json
    bool : Bool → Json
    arr : Items → Json
    obj : Fields → Json

  pub data Items : Type 0 where
    nil : Items
    cons : Json → Items → Items

  pub data Fields : Type 0 where
    end : Fields
    field : String → Json → Fields → Fields

-- What a file holds: an INI file and a JSON file are kept as the value that was written.
pub data Content : Type 0 where
  ini : Conf → Content
  json : Json → Content
  text : String → Content

pub record Host (W : Type 0) : Type 0 where
  pub conf : Conf
  pub files : Dict Content
  pub world : W

module _ {W : Type 0} where
  -- `with open("config.conf", "w") as file: config.write(file)`
  abbrev pub write_conf : Conf → Exec (Host W) (Unit {0})
  write_conf c = modify (λ h. record h { conf = c })

  -- `ConfigParser().read("config.conf")`
  abbrev pub read_conf : Exec (Host W) Conf
  read_conf h = (ok h.conf, h)

  -- `with open(path, "w") as file: file.write(content)`, its directory made beforehand
  abbrev pub write_file : String → Content → Exec (Host W) (Unit {0})
  write_file path x = modify (λ h. record h { files = insert path x h.files })

  -- a statement about the outside world
  abbrev pub outside : {A : Type 0} → Exec W A → Exec (Host W) A
  outside m h = let (r, w) = m h.world in (r, record h { world = w })

  -- a statement about a parser `c`, handed on beside its result
  abbrev pub parser : {A : Type 0} → Exec Conf A → Conf → Exec (Host W) (A × Conf)
  parser m c h = let (r, c') = m c in elim r [ ok a ↦ (ok (a, c'), h) | err e ↦ (err e, h) ]
