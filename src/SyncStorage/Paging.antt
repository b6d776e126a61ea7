-- ===== src/SyncStorage/Paging.antt =====
-- Following the offset tokens of `get_bsos`: what a client collects that sends each token back.
mod Runs
mod Window
mod Token
mod Rows
mod Pages
mod Client
mod Complete
pub use Rows.{all_rows}
unfoldable pub use Client.{offset_in_window, read_all}
pub use Complete.{request_at}
