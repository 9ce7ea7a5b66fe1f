-- ===== src/Usage/Clients/Rows.antt =====
-- What the list shows.
use tracium.Usage.Clients.{user_sort_key}
