-- ===== src/Config/Load.antt =====
-- `Document::load_from` and `load`: the file, which is read anew for each request. The reading and the
-- TOML parser are parameters.
use sentinel_cosmic.Common.{none, Option, some}
use sentinel_cosmic.Config.{Document, defaults, for_service, ServiceConfig}
use sentinel_cosmic.Text.{Text}

pub data ReadResult : Type 0 where
  contents : Text → ReadResult
  not_found : ReadResult
  unreadable : ReadResult

-- What is logged of a file that could not be used.
pub data Complaint : Type 0 where
  debug : Complaint
  warning : Complaint

abbrev fallback : Option Document → Document × Option Complaint
fallback none = (defaults, some warning)
fallback (some d) = (d, none)

abbrev parsed : (Text → Option Document) → ReadResult → Document × Option Complaint
parsed parse (contents s) = fallback (parse s)
parsed parse not_found = (defaults, some debug)
parsed parse unreadable = (defaults, some warning)

unfoldable pub load_from :
    (Text → ReadResult) → (Text → Option Document) → Text → Document × Option Complaint
load_from read parse path = parsed parse (read path)

-- `load`. The path is the build's CONFIG_PATH.
unfoldable pub load : (Text → ReadResult) → (Text → Option Document) → Text → Text → ServiceConfig
unfolding load_from for_service
load read parse path service = for_service (load_from read parse path).0 service

-- The document that the file holds, if it can be read and is one.
abbrev pub document_in : (Text → Option Document) → ReadResult → Option Document
document_in parse (contents s) = parse s
document_in parse not_found = none
document_in parse unreadable = none
