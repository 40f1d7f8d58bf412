-- ===== src/Computing.antt =====
-- The simulated serverless platform: processors, containers and the computer that hosts them
-- (Edge/processor.cpp, Edge/container.cpp, Edge/lambda.cpp).
pub mod Processor
pub mod Lambda
pub mod Container
pub mod Computer
mod Tests
mod ComputerTests
