-- ===== src/Logbook/Accounts.antt =====
-- The ledgers of a logbook/book.py over any sequence of calls on it and its scribes.
use auto_weaver.Prelude.{string_eq}
use auto_weaver.Logbook.{Python}
use auto_weaver.Logbook.Book.{Scribe, Logbook}
use auto_weaver.Logbook.Ledgers.{IsAccounted}
use auto_weaver.Logbook.Threads.{Desk, waiting, uncounted}

module _ (P : Python) where
  abbrev IsInOrder : Desk P → Type 0
  IsInOrder k = IsAccounted (waiting k.under_way) (uncounted k.under_way) k.book
