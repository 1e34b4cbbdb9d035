-- ===== src/Tools/ToolChain.antt =====
-- include/ravbot/tools/tool_chain.hpp and src/tools/tool_chain.cpp.
pub mod Types
pub mod Template
pub mod Execute
