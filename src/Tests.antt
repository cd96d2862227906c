-- ===== src/Tests.antt =====
-- Concrete runs of the theorems, on small databases.
mod Data
mod TransferTests
mod AuthTests
mod WorkerTests
mod ServiceTests
mod RegisterTests
mod PlatformTests
mod DirectoryTests
mod RecordTests
mod ApiTests
