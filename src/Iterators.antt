-- ===== src/Iterators.antt =====
-- pkg/brainapi/iterators.go: paginateAll, and drainAll of cmd/brainapi/handler.go. The goroutine that
-- fills the channel is the walk below; its caller drains the channel.
pub mod Served
use brainapi_go_sdk.Prelude.{
  neg_part, ◌-◌, ◌&&◌, ◌^◌, length, pos, codes, ◌+◌, ◌||◌, leb_ℤ, pos_part, is_empty, false, Text,
  true, to_int64, if◌then◌else◌, ◌++◌, List, ℕ, Option, Bool, ℤ, [], ◌∷◌, none, some, zero, suc,
}
use brainapi_go_sdk.World.Monad.{return, ◌>>=◌, M, Outcome, ok, err, diverged}
use brainapi_go_sdk.World.{World}
use brainapi_go_sdk.Client.{Setup}
use brainapi_go_sdk.Errors.{wrapped, Error}
use brainapi_go_sdk.Alphas.{ListAlphasOptions, list_alphas}
use brainapi_go_sdk.Account.{messages, ListMessagesOptions}

-- How the walk ends. `unfinished` is a walk of the model that is out of fuel, or a page whose fetch is.
pub data Ending : Type 0 where
  finished : Ending
  stopped : Error → Ending
  unfinished : Ending

-- What the consumer reads: the items of the channel, then the error of errs, if there is one.
pub record Stream (T : Type 0) : Type 0 where
  pub items : List T
  pub ending : Ending

-- A page: its items, and whether the caller of paginateAll calls it the last.
abbrev pub PageOf : Type 0 → Type 0
PageOf T = List T × Bool

-- offset += len(items), in int64.
unfoldable pub next_offset : ℤ → ℕ → ℤ
next_offset off n = to_int64 (pos_part off + n + (2 ^ 64 - neg_part off))

module _ {T : Type 0} where
  abbrev pub send_one : Option Error → T → List T × Option Error → List T × Option Error
  send_one (some e) x rest = ([], some e)
  send_one none x rest = (x ∷ rest.0, rest.1)

  -- The sends of one page. `choice` is the select of each send, by the number of items sent before:
  -- the send, or the error of a context that is done.
  unfoldable pub send_items : (ℕ → Option Error) → ℕ → List T → List T × Option Error
  send_items choice k [] = ([], none)
  send_items choice k (x ∷ xs) = send_one (choice k) x (send_items choice (suc k) xs)

  abbrev pub prepend : List T → Stream T × World → Stream T × World
  prepend xs (s, w) = (record { items = xs ++ s.items; ending = s.ending }, w)

  -- After a page that was sent whole: the end, or the rest of the walk.
  abbrev pub unless_last : Bool → World → Stream T × World → Stream T × World
  unless_last last w rest = if last then (record { items = []; ending = finished }, w) else rest

  abbrev pub is_nil : List T → Bool
  is_nil [] = true
  is_nil (x ∷ xs) = false

  abbrev pub after_sends :
      List T × Option Error → Bool → World → Stream T × World → Stream T × World
  after_sends (sent, some e) last w rest = (record { items = sent; ending = stopped e }, w)
  after_sends (sent, none) last w rest = prepend sent (unless_last last w rest)

  -- One round of the loop; `again` is the rest of it from an offset and a number of items sent.
  unfoldable pub after_page :
      (ℕ → Option Error)
      → ℤ
      → ℕ
      → (ℤ → ℕ → World → Stream T × World)
      → Outcome (PageOf T) × World
      → Stream T × World
  unfolding send_items next_offset
  after_page choice off k again (err e, w) = (record { items = []; ending = stopped e }, w)
  after_page choice off k again (diverged, w) = (record { items = []; ending = unfinished }, w)
  after_page choice off k again (ok (items, done), w) =
      after_sends (send_items choice k items) (done || is_nil items) w
        (again (next_offset off (length items)) (k + length items) w)

  -- The loop, on fuel for the pages.
  unfoldable pub walk :
      (ℤ → M (PageOf T)) → (ℕ → Option Error) → ℕ → ℤ → ℕ → World → Stream T × World
  unfolding after_page
  walk fetch choice zero off k w = (record { items = []; ending = unfinished }, w)
  walk fetch choice (suc n) off k w = after_page choice off k (walk fetch choice n) (fetch off w)

  unfoldable pub paginate_all :
      (ℤ → M (PageOf T)) → (ℕ → Option Error) → ℕ → ℤ → World → Stream T × World
  unfolding walk
  paginate_all fetch choice fuel off = walk fetch choice fuel off 0

  -- drainAll: all the items, or the error alone.
  unfoldable pub drain_all : Stream T × World → Outcome (List T) × World
  drain_all (s, w) = elim s.ending [
    | finished ↦ (ok s.items, w)
    | stopped e ↦ (err (wrapped (codes "paginate") e), w)
    | unfinished ↦ (diverged, w)
  ]

-- The endpoints that page by Next links: the last page has none, or an empty one.
pub record Page (T : Type 0) : Type 0 where
  pub count : ℤ
  pub next : Option Text
  pub previous : Option Text
  pub results : List T

abbrev pub has_no_next : Option Text → Bool
has_no_next none = true
has_no_next (some t) = is_empty t

-- opts.Limit, or the default where it is 0.
abbrev pub limit_or : ℤ → ℤ → ℤ
limit_or n d = if leb_ℤ n (pos 0) && leb_ℤ (pos 0) n then d else n

module _ {T : Type 0} (c : Setup) (decode : Text → Option (Page T)) where
  -- The callback of ListAlphasAll.
  unfoldable pub alphas_page : ListAlphasOptions → ℤ → M (PageOf T)
  unfolding list_alphas
  alphas_page opts off = do
    page ←
        list_alphas c decode (record opts { limit = limit_or opts.limit (pos 100); offset = off })
    return (page.results, has_no_next page.next)

  unfoldable pub list_alphas_all :
      ListAlphasOptions → (ℕ → Option Error) → ℕ → World → Stream T × World
  unfolding alphas_page
  list_alphas_all opts choice fuel = paginate_all (alphas_page opts) choice fuel opts.offset

  -- The callback of MessagesAll.
  unfoldable pub messages_page : ListMessagesOptions → ℤ → M (PageOf T)
  messages_page opts off = do
    page ← messages c decode (record opts { limit = limit_or opts.limit (pos 50); offset = off })
    return (page.results, has_no_next page.next)

  unfoldable pub messages_all :
      ListMessagesOptions → (ℕ → Option Error) → ℕ → World → Stream T × World
  unfolding messages_page
  messages_all opts choice fuel = paginate_all (messages_page opts) choice fuel opts.offset
