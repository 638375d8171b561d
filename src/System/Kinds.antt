-- ===== src/System/Kinds.antt =====
-- The chunks that each worker gets and sends back, by their states and their errors (worker.go, mgr.go).
use incite.Base.{false}
use incite.Chunk.{starting, started, polling, complete, stopping, stopped}
use incite.Worker.States.{Test}
use incite.System.Ends.{not_eof}

abbrev pub is_clear : Test
is_clear state e = not_eof e

-- The chunks with each worker, and those that it sends back.
abbrev pub is_starting : Test
is_starting starting e = not_eof e
is_starting _ e = false

abbrev pub is_polling : Test
is_polling polling e = not_eof e
is_polling _ e = false

abbrev pub is_stopping : Test
is_stopping stopping e = not_eof e
is_stopping _ e = false

abbrev pub from_starter : Test
from_starter starting e = not_eof e
from_starter started e = not_eof e
from_starter _ e = false

abbrev pub from_poller : Test
from_poller polling e = not_eof e
from_poller complete e = not_eof e
from_poller _ e = false

abbrev pub from_stopper : Test
from_stopper stopping e = not_eof e
from_stopper stopped e = not_eof e
from_stopper _ e = false
