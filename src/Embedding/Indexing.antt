-- ===== src/Embedding/Indexing.antt =====
-- workers/executors/embedding.py with workers/executors/index_build.py: the index that the executor
-- asks for is the one that its task will build.
