-- ===== src/Tests.antt =====
-- Concrete values, and the theorems of the other modules applied to them: `Wire` is a small token
-- crate with its laws, `Sample` a server over it, `Directory` the identity providers.
mod Wire
mod Sample
mod Directory
mod Csv
mod Routes
mod Providers
mod Parts
mod Requests
mod History
mod Building
mod Commands
mod Session
