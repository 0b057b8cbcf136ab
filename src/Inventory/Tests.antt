-- ===== src/Inventory/Tests.antt =====
-- Runs of the inventory page on a small list.
use certguard.Base.{ℕ, ◌≡◌, refl, false, Option, none, some, List, [], ◌∷◌, map, length}
use certguard.Base.Int.{ℤ, pos, negsuc}
use certguard.Base.Text.{Text}
use certguard.Common.Expiry.{expired}
use certguard.Inventory.Items.{Item, Browser}
use certguard.Inventory.Filter.{in_bucket, initial, visible_items, reset}
use certguard.Inventory.Filter.Tiles.{tiles, count_of, visible_items-count_of}
use certguard.Inventory.Csv.{head, fields_of, table_text}
use certguard.Inventory.Csv.Reader.{read}
use certguard.Inventory.Csv.Read.{read-table_text}
use certguard.Inventory.Notes.{Notes, nothing}

-- A browser that leaves letters as they are, reads a text of one character as a time, and writes
-- every number as a question mark.
abbrev time_of : Text → Option ℤ
time_of [] = none
time_of (c ∷ _) = some (pos c)

abbrev pub browser : Browser
browser = record {
  lower = λ s. s;
  locale_after = λ s t. false;
  time = time_of;
  iso_day = λ s. s;
  show = λ n. 63 ∷ [];
}

abbrev show_port : ℕ → Text
show_port n = 63 ∷ []

abbrev pub entry : Text → ℤ → Item
entry name days = record {
  cert = record {
    id = 1;
    name = name;
    category = [];
    kind = [];
    host = [];
    port = 0;
    issuer = [];
    subject = [];
    notes = [];
    dns_names = [];
    has_secret = false;
    last_error = [];
    coverage = [];
    expires_at = [];
    last_scanned_at = [];
  };
  days_remaining = days;
}

-- The second name holds a comma, a quote and a line feed.
abbrev items : List Item
items =
    entry (97 ∷ []) (pos 40)
    ∷ entry (98 ∷ 44 ∷ 34 ∷ 10 ∷ []) (negsuc 2)
    ∷ entry (99 ∷ []) (pos 5)
    ∷ []

visible_items-count_of_example :
    length (
      visible_items browser show_port (record (reset initial) { status = in_bucket expired }) items)
    ≡ count_of (in_bucket expired) (tiles items)
visible_items-count_of_example =
    visible_items-count_of browser show_port initial (in_bucket expired) items refl

read-table_text_example :
    read (table_text browser show_port items) ≡ head ∷ map (fields_of browser show_port) items
read-table_text_example = read-table_text browser show_port items

abbrev typed : Notes
typed = record {
  items = items;
  field = record { value = 120 ∷ []; orig = []; disabled = false; message = nothing };
}
